-- ===== src/Text/Laws.antt =====
-- Laws of prefixes and of trimming.
use sesame_sdk.Prelude.{◌≡◌, refl, ◌↔◌, some, arith, [], ◌∷◌, ◌++◌}
use sesame_sdk.Text.{Bytes, strip_prefix, trim, codes}

strip_prefix_sound : (p s : Bytes) {r : Bytes} → strip_prefix p s ≡ some r → s ≡ p ++ r
unfolding strip_prefix
strip_prefix_sound [] s h = ground arith
strip_prefix_sound (c ∷ p) [] h = cc
strip_prefix_sound (c ∷ p) (d ∷ s) {r} h = ground (arith, strip_prefix_sound p s {r = r})

strip_prefix_complete : (p r : Bytes) → strip_prefix p (p ++ r) ≡ some r
unfolding strip_prefix
strip_prefix_complete [] r = refl
strip_prefix_complete (c ∷ p) r = ground (arith, strip_prefix_complete p r)

pub strip_prefix_iff : (p s r : Bytes) → (strip_prefix p s ≡ some r) ↔ (s ≡ p ++ r)
strip_prefix_iff p s r = (strip_prefix_sound p s, λ e. rw e (strip_prefix_complete p r))

trim_test : trim (codes " \tA B ") ≡ codes "A B"
unfolding trim
trim_test = refl
