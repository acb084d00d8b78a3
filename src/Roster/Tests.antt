-- ===== src/Roster/Tests.antt =====
-- Examples for the rosters: two buddies in a list for three.
use myqq.Base.{
  ℕ, ◌+◌, ◌%◌, ◌^◌, ◌<◌, ◌≡◌, refl, ◌≢◌, true, false, Option, none, some, List, [], ◌∷◌, map, arith,
  ltb, ◌==◌, replicate, length-replicate,
}
use myqq.PtrList.{PtrList}
use myqq.PtrList.Contents.{IsPtrList, contents, find?}
use myqq.Roster.{
  Buddy, Qun, Member, null_buddy, null_member, null_qun, new_buddy, buddy_get, buddy_remove,
  buddy_comp, positive, qun_update_memberinfo,
}
use myqq.Roster.Find.{Added, IsUnique, count_of, buddy_get-Added, buddy_remove-gone}
use myqq.Roster.Batches.{flat, AreSmall, qun_update_memberinfo-flat}
use myqq.Roster.Compare.{buddy_comp_lem}

abbrev print : ℕ → List ℕ
print n = (n % 10 + 48) ∷ []

abbrev buddies : PtrList Buddy
buddies = record {
  size = 3;
  count = 2;
  items = new_buddy print 7 ∷ new_buddy print 8 ∷ null_buddy ∷ [];
  locked = false;
}

buddies-IsPtrList : IsPtrList buddies
buddies-IsPtrList = record { array = refl; fits = omega arith; open_lock = refl }

buddies-IsUnique : IsUnique (λ b. b.number) buddies
unfolding count_of
buddies-IsUnique n = ground arith

buddy_get-Added_example :
    (r : Option Buddy) × (l : PtrList Buddy) × (buddy_get print buddies 9 true ≡ some (r, l))
    × Added null_buddy
        (λ b. b.number)
        (new_buddy print 9)
        buddies
        buddies-IsPtrList
        9
        refl
        (omega arith)
        r
        l
buddy_get-Added_example = buddy_get-Added print buddies buddies-IsPtrList 9 (omega arith)

buddy_remove-gone_example :
    (l : PtrList Buddy) × (buddy_remove buddies 7 ≡ some l)
    × IsPtrList l
    × IsUnique (λ b. b.number) l
    × (find? (λ b. b.number == 7) (contents l) ≡ none)
    × ((m : ℕ)
        → m ≢ 7
        → count_of (λ b. b.number) m (contents l) ≡ count_of (λ b. b.number) m (contents buddies))
buddy_remove-gone_example = buddy_remove-gone buddies buddies-IsPtrList buddies-IsUnique 7

buddy_comp_lem_example :
    (0 < 3000000000 + 2 ^ 31
      → 3000000000 < 0 + 2 ^ 31
      → positive (buddy_comp 0 3000000000) ≡ ltb 3000000000 0)
    × (3000000000 + 2 ^ 31 < 0 → positive (buddy_comp 0 3000000000) ≡ false)
    × (0 + 2 ^ 31 < 3000000000 → positive (buddy_comp 0 3000000000) ≡ true)
buddy_comp_lem_example = buddy_comp_lem 0 3000000000 (omega arith) (omega arith)

-- a qun of 31 members
abbrev member : Member
member = record null_member { number = 5 }

abbrev qun : Qun
qun = record null_qun {
  number = 1;
  ext_number = 2;
  member_list = record { size = 800; count = 31; items = replicate 800 member; locked = false };
}

qun_update_memberinfo-flat_example :
    (bs : List (List ℕ)) × (qun_update_memberinfo qun ≡ some bs)
    × (flat bs ≡ map (λ m. m.number) (contents qun.member_list))
    × AreSmall bs
qun_update_memberinfo-flat_example =
    qun_update_memberinfo-flat qun
      (record { array = length-replicate 800 member; fits = omega arith; open_lock = refl })
