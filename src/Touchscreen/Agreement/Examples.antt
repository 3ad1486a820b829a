-- ===== src/Touchscreen/Agreement/Examples.antt =====
-- A key store whose shared secret is the length of both numbers together, and a hash that counts.
use keg_scale_espdisplay.Prelude.{ℕ, ◌+◌, ◌≡◌, refl, true, none, some, List, [], ◌∷◌, replicate}
use keg_scale_espdisplay.Touchscreen.Hex.{cl_hex}
use keg_scale_espdisplay.Touchscreen.Link.{no_link, Psa}
use keg_scale_espdisplay.Touchscreen.Agreement.{KeyStore, cl_keypair, cl_agree}
use keg_scale_espdisplay.Touchscreen.Agreement.Laws.{SameKey, cl_agree-SameKey}

abbrev public_of : ℕ → List ℕ
public_of key = replicate 65 key

abbrev first_of : List ℕ → ℕ
first_of [] = 0
first_of (b ∷ bytes) = b

abbrev adding : KeyStore
adding = record {
  init = true;
  generate = some 7;
  export = λ key. some (public_of key);
  agree = λ key peer. some (replicate 32 (key + first_of peer));
}

abbrev small_psa : Psa
small_psa = record {
  hash = λ bytes. some (replicate 32 (171 + first_of bytes));
  encrypt = λ key direction seq plain. none;
  decrypt = λ key direction seq bytes. none;
}

cl_keypair-public : (cl_keypair adding no_link).1 ≡ some (cl_hex (public_of 7))
unfolding cl_keypair
cl_keypair-public = refl

-- 171 + 12 and then 171 + 183 are the first bytes of the two hashes.
cl_agree-code :
    (cl_agree small_psa adding
      (cl_hex (public_of 5))
      (cl_hex (public_of 5))
      (cl_hex (public_of 7))
      (record no_link { ephemeral = 7 })).0.master
    ≡ replicate 32 183
unfolding cl_agree
cl_agree-code = refl

cl_agree-SameKey_example :
    SameKey
      (cl_agree small_psa adding
        (cl_hex (public_of 7))
        (cl_hex (public_of 5))
        (cl_hex (public_of 7))
        (record no_link { ephemeral = 5 }))
      (cl_agree small_psa adding
        (cl_hex (public_of 5))
        (cl_hex (public_of 5))
        (cl_hex (public_of 7))
        (record no_link { ephemeral = 7 }))
unfolding keg_scale_espdisplay.Touchscreen.Hex.cl_unhex
cl_agree-SameKey_example =
    cl_agree-SameKey small_psa adding adding (cl_hex (public_of 5)) (cl_hex (public_of 7))
      (public_of 5) (public_of 7) (record no_link { ephemeral = 5 })
      (record no_link { ephemeral = 7 }) refl refl refl
