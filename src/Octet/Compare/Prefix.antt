-- ===== src/Octet/Compare/Prefix.antt =====
-- lib/oct.c: `octncmp` over the length of the second octets tests for a prefix.
use spocp.Prelude.{min, ◌≤◌, Bytes, [], ◌∷◌, length, take, ◌≡◌, refl, ◌↔◌, arith}
use spocp.Octet.Compare.{memcmp, octncmp}

memcmp-take :
    (a s : Bytes)
    → length s ≤ length a
    → (memcmp a s (length s) ≡ 0 → take (length s) a ≡ s)
      × (take (length s) a ≡ s → memcmp a s (length s) ≡ 0)
unfolding memcmp
memcmp-take [] [] h = (λ _. refl, λ _. refl)
memcmp-take (x ∷ a) [] h = (λ _. refl, λ _. refl)
memcmp-take [] (y ∷ s) h = absurd (omega arith)
memcmp-take (x ∷ a) (y ∷ s) h =
    let ih = memcmp-take a s (omega arith) in (λ e. ground (arith, ih.0), λ e. ground (arith, ih.1))

-- For octets at least as long as `s`, `octncmp` over the length of `s` is 0 exactly if they begin
-- with `s`.
pub octncmp-take :
    (a s : Bytes) → length s ≤ length a → (octncmp a s (length s) ≡ 0) ↔ (take (length s) a ≡ s)
unfolding octncmp
octncmp-take a s h =
    let e : min (min (length a) (length s)) (length s) ≡ length s = omega arith in
    rw e (memcmp-take a s h)
