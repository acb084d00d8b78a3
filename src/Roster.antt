-- ===== src/Roster.antt =====
-- src/buddy.c, src/group.c and src/qun.c: the buddies, groups and quns that a client knows, each a
-- list of src/list.c of records with a number. A pointer to a record is the record here: two
-- records of a list are the same pointer exactly if they stand at the same place. `malloc` does
-- not fail. `none` is a call that blocks for ever on the list's mutex.
pub mod Find
pub mod Batches
pub mod Compare
mod Tests
use myqq.Base.{
  ℕ, zero, suc, ◌+◌, ◌-◌, ◌%◌, ◌^◌, Bool, true, false, not, ◌&&◌, ◌||◌, Option, none, some, List,
  [], ◌∷◌, map, ltb, ◌==◌, if◌then◌else◌, length, set, take, drop, replicate, overwrite,
}
use myqq.Packet.{Token, token_len}
use myqq.PtrList.{
  PtrList, ◌>>=◌, list_create, list_append, list_remove, list_search, list_sort, list_cleanup,
}

abbrev pub offline : ℕ
offline = 20

-- `struct qqbuddy`, `struct qqgroup` and `struct qunmember`. A `char` array is the list of its
-- bytes; `details` has the arrays that `prot_buddy_get_info_reply` fills, by the type of the entry.
pub record Buddy : Type 0 where
  pub number : ℕ
  pub nickname : List ℕ
  pub ip : ℕ
  pub port : ℕ
  pub face : ℕ
  pub age : ℕ
  pub sex : ℕ
  pub gid : ℕ
  pub session_key : List ℕ
  pub status : ℕ
  pub version : ℕ
  pub verify_flag : ℕ
  pub sign_time : ℕ
  pub account_flag : ℕ
  pub signature : List ℕ
  pub account : List ℕ
  pub alias : List ℕ
  pub details : ℕ → List ℕ

pub record Group : Type 0 where
  pub number : ℕ
  pub name : List ℕ
  pub order : ℕ

pub record Member : Type 0 where
  pub number : ℕ
  pub nickname : List ℕ
  pub face : ℕ
  pub age : ℕ
  pub sex : ℕ
  pub qqshow : ℕ
  pub flag : ℕ
  pub status : ℕ
  pub role : ℕ
  pub org : ℕ

pub record Qun : Type 0 where
  pub number : ℕ
  pub ext_number : ℕ
  pub name : List ℕ
  pub ann : List ℕ
  pub intro : List ℕ
  pub category : ℕ
  pub owner : ℕ
  pub max_member : ℕ
  pub auth_type : ℕ
  pub type : ℕ
  pub token_cmd : Token
  pub member_list : PtrList Member

abbrev pub nickname_len : ℕ
nickname_len = 64

-- the sizes of the arrays in `details`; 0 is an entry that has none
abbrev pub detail_size : ℕ → ℕ
detail_size type =
    if type == 0x4E26 || type == 0x4E2D
    then 64
    else if type == 0x4E33
    then 256
    else if type == 0x4E3F || type == 0x4E23 || type == 0x4E24 || type == 0x4E34
    then 16
    else if type == 0x4E25
        || type == 0x4E27
        || type == 0x4E28
        || type == 0x4E30
        || type == 0x4E2C
        || type == 0x4E35
    then 32
    else 0

-- The macro NEW zeroes what it allocates.
abbrev pub zero_token : Token
zero_token = record { len = 0; bytes = replicate token_len 0 }

abbrev pub null_buddy : Buddy
null_buddy = record {
  number = 0;
  nickname = replicate nickname_len 0;
  ip = 0;
  port = 0;
  face = 0;
  age = 0;
  sex = 0;
  gid = 0;
  session_key = replicate 20 0;
  status = 0;
  version = 0;
  verify_flag = 0;
  sign_time = 0;
  account_flag = 0;
  signature = replicate 256 0;
  account = replicate 64 0;
  alias = replicate 32 0;
  details = λ type. replicate (detail_size type) 0;
}

abbrev pub null_group : Group
null_group = record { number = 0; name = replicate 256 0; order = 0 }

abbrev pub null_member : Member
null_member = record {
  number = 0;
  nickname = replicate nickname_len 0;
  face = 0;
  age = 0;
  sex = 0;
  qqshow = 0;
  flag = 0;
  status = 0;
  role = 0;
  org = 0;
}

abbrev pub null_qun : Qun
null_qun = record {
  number = 0;
  ext_number = 0;
  name = replicate nickname_len 0;
  ann = replicate 256 0;
  intro = replicate 256 0;
  category = 0;
  owner = 0;
  max_member = 0;
  auth_type = 0;
  type = 0;
  token_cmd = zero_token;
  member_list = list_create null_member 0;
}

-- What the four `..._get` functions share: the record, if there is one, and the list after it.
unfoldable pub find_or_add :
    {A : Type 0} → A → (A → ℕ) → A → PtrList A → ℕ → Bool → Option (Option A × PtrList A)
find_or_add null key new l number create = elim (number == 0) [
  | true ↦ some (none, l)
  | false ↦ list_search null l (λ b. key b == number) >>= λ found. elim found [
    | some b ↦ some (some b, l)
    | none ↦ elim create [
      | false ↦ some (none, l)
      | true ↦ list_append null l new >>= λ r. some (if r.0 then some new else none, r.1)
    ]
  ]
]

-- What the `..._remove` functions share. The record that the search returns is the first one with
-- its number, so `list_remove` finds that place again.
unfoldable pub find_and_remove : {A : Type 0} → A → (A → ℕ) → PtrList A → ℕ → Option (PtrList A)
find_and_remove null key l number = list_search null l (λ b. key b == number) >>= λ found.
    elim found [ none ↦ some l | some b ↦ list_remove null l (λ c. key c == number) ]

-- `print` is `sprintf( ..., "%u", number )`.
module _ (print : ℕ → List ℕ) where
  -- `sprintf` into an array of zeros of `n` bytes
  abbrev pub printed : ℕ → ℕ → List ℕ
  printed n number = overwrite (replicate n 0) 0 (print number)

  abbrev pub new_buddy : ℕ → Buddy
  new_buddy number = record null_buddy { number = number; nickname = printed nickname_len number }

  unfoldable pub buddy_get : PtrList Buddy → ℕ → Bool → Option (Option Buddy × PtrList Buddy)
  unfolding find_or_add
  buddy_get l number create =
      find_or_add null_buddy (λ b. b.number) (new_buddy number) l number create

  unfoldable pub group_get : PtrList Group → ℕ → Bool → Option (Option Group × PtrList Group)
  unfolding find_or_add
  group_get l number create =
      find_or_add null_group (λ g. g.number)
        (record null_group { number = number; name = printed 256 number }) l number create

  unfoldable pub qun_member_get :
      PtrList Member → ℕ → Bool → Option (Option Member × PtrList Member)
  unfolding find_or_add
  qun_member_get l number create =
      find_or_add null_member (λ m. m.number)
        (record null_member { number = number; nickname = printed nickname_len number }) l number
        create

  -- The member list of a qun that was just made: the client itself, with its name and status.
  unfoldable pub first_members : Buddy → Option (PtrList Member)
  unfolding qun_member_get
  first_members self = qun_member_get (list_create null_member 800) self.number true >>= λ r.
      some (elim r.0 [
        | none ↦ r.1
        | some m ↦ record (r.1) {
          items = set r.1.items 0 (record m { nickname = self.nickname; status = self.status });
        }
      ])

  -- The source fills the member list after it has appended the qun; the pointer is the same.
  unfoldable pub qun_get : Buddy → PtrList Qun → ℕ → Bool → Option (Option Qun × PtrList Qun)
  unfolding find_or_add first_members
  qun_get self l number create = first_members self >>= λ members.
      find_or_add null_qun (λ q. q.number)
        (record null_qun {
          number = number;
          name = printed nickname_len number;
          member_list = members;
        })
        l number create

-- A write through the pointer that a search returned, which is the first one with its number.
abbrev pub change_first : {A : Type 0} → (A → Bool) → (A → A) → List A → List A
change_first test f [] = []
change_first test f (x ∷ xs) = if test x then f x ∷ xs else x ∷ change_first test f xs

abbrev pub change : {A : Type 0} → (A → Bool) → (A → A) → PtrList A → PtrList A
change test f l = record l { items = change_first test f l.items }

unfoldable pub buddy_remove : PtrList Buddy → ℕ → Option (PtrList Buddy)
unfolding find_and_remove
buddy_remove l number = find_and_remove null_buddy (λ b. b.number) l number

unfoldable pub group_remove : PtrList Group → ℕ → Option (PtrList Group)
unfolding find_and_remove
group_remove l number = find_and_remove null_group (λ g. g.number) l number

unfoldable pub qun_member_remove : PtrList Member → ℕ → Option (PtrList Member)
unfolding find_and_remove
qun_member_remove l number = find_and_remove null_member (λ m. m.number) l number

-- The members go with the qun: `list_cleanup` of its member list, then the qun itself.
unfoldable pub qun_remove : PtrList Qun → ℕ → Option (List Member × PtrList Qun)
qun_remove l number = list_search null_qun l (λ q. q.number == number) >>= λ found. elim found [
  | none ↦ some ([], l)
  | some q ↦ list_cleanup null_member q.member_list >>= λ freed.
      list_remove null_qun l (λ c. c.number == number) >>= λ l'. some (freed, l')
]

unfoldable pub qun_get_by_ext : PtrList Qun → ℕ → Option (Option Qun)
qun_get_by_ext l ext_number = list_search null_qun l (λ q. q.ext_number == ext_number)

-- A search whose test writes to each record and never stops.
abbrev pub visit_all : {A : Type 0} → (A → A) → PtrList A → Option (PtrList A)
visit_all f l =
    if l.locked
    then none
    else some (record l { items = overwrite l.items 0 (map f (take l.count l.items)) })

unfoldable pub buddy_set_all_off : PtrList Buddy → Option (PtrList Buddy)
buddy_set_all_off l = visit_all (λ b. record b { status = offline }) l

unfoldable pub qun_set_members_off : PtrList Member → Option (PtrList Member)
qun_set_members_off l = visit_all (λ m. record m { status = offline }) l

-- `buddy_comp`: the difference of two `uint`s, whose result is read as an `int`; `positive` is its
-- sign as `qsort` reads it.
unfoldable pub buddy_comp : ℕ → ℕ → ℕ
buddy_comp p q = (p + 2 ^ 32 - q) % 2 ^ 32

abbrev pub positive : ℕ → Bool
positive c = ltb 0 c && ltb c (2 ^ 31)

unfoldable pub buddy_sort_list : (List Buddy → List Buddy) → PtrList Buddy → Option (PtrList Buddy)
buddy_sort_list qsort l = list_sort null_buddy qsort l

-- The numbers that `qun_update_memberinfo` gives to each call of `prot_qun_get_memberinfo`, in
-- order; each round of the loop sends one at least.
unfoldable pub batches : ℕ → List ℕ → List (List ℕ)
batches zero numbers = []
batches (suc fuel) numbers =
    let send = if ltb (length numbers) 30 then length numbers else 30 in
    let rest = take send numbers ∷ batches fuel (drop send numbers) in
    if ltb 0 (length numbers) then rest else []

unfoldable pub qun_update_memberinfo : Qun → Option (List (List ℕ))
unfolding batches
qun_update_memberinfo q =
    let l = q.member_list in
    let numbers = map (λ m. m.number) (take l.count l.items) in
    if l.locked then none else some (batches (length numbers) numbers)
