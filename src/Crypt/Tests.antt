-- ===== src/Crypt/Tests.antt =====
-- Examples for the cipher of src/qqcrypt.c.
use myqq.Base.{ℕ, ◌+◌, ◌%◌, ◌≤◌, ◌≡◌, refl, some, List, [], ◌∷◌, arith, length}
use myqq.Crypt.{qqencrypt, qqdecrypt, header_fill, encipher, decipher}
use myqq.Crypt.Tea.{AreBytes, decipher-encipher}
use myqq.Crypt.RoundTrip.{qqdecrypt-qqencrypt, length-qqencrypt}

abbrev hello : List ℕ
hello = 104 ∷ 101 ∷ 108 ∷ 108 ∷ 111 ∷ []

abbrev some_key : List ℕ
some_key = 1 ∷ 2 ∷ 3 ∷ 4 ∷ 5 ∷ 6 ∷ 7 ∷ 8 ∷ 9 ∷ 10 ∷ 11 ∷ 12 ∷ 13 ∷ 14 ∷ 15 ∷ 255 ∷ []

abbrev block : List ℕ
block = 255 ∷ 0 ∷ 1 ∷ 2 ∷ 3 ∷ 4 ∷ 5 ∷ 254 ∷ []

hello-AreBytes : AreBytes hello
hello-AreBytes = omega arith

qqdecrypt-qqencrypt_example : qqdecrypt (qqencrypt hello some_key) some_key 16 ≡ some hello
qqdecrypt-qqencrypt_example = qqdecrypt-qqencrypt hello some_key hello-AreBytes 16 (omega arith)

decipher-encipher_example : decipher some_key (encipher some_key block) ≡ block
decipher-encipher_example =
    decipher-encipher some_key block (record { eight = refl; bytes = omega arith })

length-qqencrypt_example :
    (length (qqencrypt hello some_key) ≡ 5 + header_fill 5 + 10)
    × (length (qqencrypt hello some_key) % 8 ≡ 0)
    × (16 ≤ length (qqencrypt hello some_key))
    × (length (qqencrypt hello some_key) ≤ 22)
length-qqencrypt_example = length-qqencrypt hello some_key
