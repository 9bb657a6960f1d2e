-- ===== src/App/Frames.antt =====
-- The loop of `write_frame` in CompanionApplication.cpp, over a transport and its wire.
use onboard_autonomy.Base.{
  ℕ, zero, suc, ◌≤◌, ◌≡◌, refl, sym, ap, ◌∙◌, inl, inr, Bool, true, false, [], ◌∷◌, ◌++◌, arith,
  take, drop, if◌then◌else◌, length, length-drop, take-append-drop, ◌==◌, Bool-cases,
}
use onboard_autonomy.Mavlink.Encoder.{Bytes}
use onboard_autonomy.App.Transport.{Transport, send_bytes}

append_assoc : (xs ys zs : Bytes) → (xs ++ ys) ++ zs ≡ xs ++ (ys ++ zs)
append_assoc [] ys zs = refl
append_assoc (x ∷ xs) ys zs = ap (λ l. x ∷ l) (append_assoc xs ys zs)

append_nil : (xs : Bytes) → xs ++ [] ≡ xs
append_nil [] = refl
append_nil (x ∷ xs) = ap (λ l. x ∷ l) (append_nil xs)

module _ {T : Type 0} (transport : Transport T) where
  send_bytes-agree :
      (m n : ℕ) (bytes : Bytes) (t : T)
      → length bytes ≤ m
      → length bytes ≤ n
      → send_bytes transport m bytes t ≡ send_bytes transport n bytes t
  unfolding send_bytes
  send_bytes-agree zero zero bytes t h k = refl
  send_bytes-agree zero (suc n) [] t h k = refl
  send_bytes-agree (suc m) zero [] t h k = refl
  send_bytes-agree (suc m) (suc n) [] t h k = refl
  send_bytes-agree zero (suc n) (b ∷ bytes) t h k = ground arith
  send_bytes-agree (suc m) zero (b ∷ bytes) t h k = ground arith
  send_bytes-agree (suc m) (suc n) (b ∷ bytes) t h k =
      let (t', written) = transport.write (b ∷ bytes) t in
      let left = length-drop written (b ∷ bytes) in
      elim (Bool-cases (written == 0)) [
        | inl stuck ↦ rw stuck refl
        | inr moved ↦ rw moved (
            send_bytes-agree m n (drop written (b ∷ bytes)) t' (ground (arith, left))
              (ground (arith, left)))
      ]

  -- Fuel beyond the number of bytes changes nothing: the length of the frame is enough.
  pub send_bytes-fuel :
      (fuel : ℕ) (bytes : Bytes) (t : T)
      → length bytes ≤ fuel
      → send_bytes transport fuel bytes t ≡ send_bytes transport (length bytes) bytes t
  send_bytes-fuel fuel bytes t h = send_bytes-agree fuel (length bytes) bytes t h (omega arith)

  chosen :
      (P : T → Type 0) (stop : Bool) (x y : T × Bool)
      → x.1 ≡ false
      → (if stop then x else y).1 ≡ true
      → (y.1 ≡ true → P y.0)
      → P (if stop then x else y).0
  chosen P true x y e h k = cc
  chosen P false x y e h k = k h

  module _ (taken : T → Bytes)
      (write_takes : (bytes : Bytes) (t : T)
        → taken (transport.write bytes t).0
          ≡ taken t ++ take (transport.write bytes t).1 bytes) where
    -- Where every write takes the first bytes of what it is given, as many as it says: when the
    -- sending of a frame ends in success, the frame was taken whole, and nothing else was.
    pub send_bytes-whole :
        (fuel : ℕ) (bytes : Bytes) (t : T)
        → (send_bytes transport fuel bytes t).1 ≡ true
        → taken (send_bytes transport fuel bytes t).0 ≡ taken t ++ bytes
    unfolding send_bytes
    send_bytes-whole zero [] t h = sym (append_nil (taken t))
    send_bytes-whole zero (b ∷ bytes) t h = cc
    send_bytes-whole (suc fuel) [] t h = sym (append_nil (taken t))
    send_bytes-whole (suc fuel) (b ∷ bytes) t h =
        let (t', written) = transport.write (b ∷ bytes) t in
        chosen (λ u. taken u ≡ taken t ++ (b ∷ bytes)) (written == 0) (t', false)
          (send_bytes transport fuel (drop written (b ∷ bytes)) t') refl h
          (λ done.
            send_bytes-whole fuel (drop written (b ∷ bytes)) t' done
            ∙ ap (λ l. l ++ drop written (b ∷ bytes)) (write_takes (b ∷ bytes) t)
            ∙ append_assoc (taken t) (take written (b ∷ bytes)) (drop written (b ∷ bytes))
            ∙ ap (λ l. taken t ++ l) (take-append-drop written (b ∷ bytes)))
