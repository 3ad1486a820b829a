-- ===== src/Touchscreen/Link/Examples.antt =====
-- A toy cipher in the place of AES-GCM, and one message.
use keg_scale_espdisplay.Prelude.{
  ℕ, zero, suc, ◌+◌, ◌≡◌, refl, ap, subst, true, none, some, List, [], ◌∷◌, ◌++◌, arith, length,
  take, replicate,
}
use keg_scale_espdisplay.Touchscreen.Link.{Link, no_link, Psa, cl_seal, cl_open}
use keg_scale_espdisplay.Touchscreen.Link.Replay.{IsAead, cl_open-cl_seal}

abbrev skip : ℕ → List ℕ → List ℕ
skip zero xs = xs
skip (suc n) [] = []
skip (suc n) (x ∷ xs) = skip n xs

-- Sixteen copies of the sequence number stand before the text.
abbrev pub toy_psa : Psa
toy_psa = record {
  hash = λ bytes. some (take 32 bytes);
  encrypt = λ key direction seq plain. some (replicate 16 seq ++ plain);
  decrypt = λ key direction seq bytes. some (skip 16 bytes);
}

abbrev pub display_end : Link
display_end = record no_link { tx_seq = 4 }

abbrev scale_end : Link
scale_end = record no_link { server = true; rx_seq = 4 }

abbrev frame_five : List ℕ
frame_five = (0 ∷ 0 ∷ 0 ∷ 5 ∷ []) ++ replicate 16 5 ++ 104 ∷ 105 ∷ []

toy_psa-IsAead : IsAead toy_psa
toy_psa-IsAead key plain bytes direction seq e = of_text bytes (some_injective e)
  where
    some_injective : {xs ys : List ℕ} → some xs ≡ some ys → xs ≡ ys
    some_injective e = ap (λ o. elim o as (λ _. List ℕ) [ none ↦ [] | some xs ↦ xs ]) e

    of_text :
        (bytes : List ℕ)
        → replicate 16 seq ++ plain ≡ bytes
        → (some (skip 16 bytes) ≡ some plain) × (length bytes ≡ length plain + 16)
    of_text bytes f =
        subst (λ bs. (some (skip 16 bs) ≡ some plain) × (length bs ≡ length plain + 16)) f
          (refl, omega arith)

cl_open-cl_seal_example :
    let s' = (cl_seal toy_psa (104 ∷ 105 ∷ []) display_end).0 in
    let r' : Link = record scale_end { rx_seq = s'.tx_seq } in
    (s'.tx_seq ≡ 5)
    × (cl_open toy_psa frame_five scale_end ≡ (r', some (104 ∷ 105 ∷ [])))
    × (cl_open toy_psa frame_five r' ≡ (r', none))
unfolding cl_seal
cl_open-cl_seal_example =
    cl_open-cl_seal toy_psa display_end scale_end (104 ∷ 105 ∷ []) frame_five toy_psa-IsAead
      (refl, refl) (omega arith) (omega arith) refl
