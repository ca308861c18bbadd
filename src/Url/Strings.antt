-- ===== src/Url/Strings.antt =====
-- The searches of `parse` in src/util/url.h.
use rawdishfs.Base.{
  ==_iff, Bytes, [], arith, false, none, refl, some, ℕ, ◌++◌, ◌==◌, ◌>>=◌, ◌||◌, ◌∙◌, ◌∷◌, ◌≡◌,
}
use rawdishfs.Url.{strip_prefix, split_first, split_last, has_byte}

pub has_byte-append : (c : ℕ) (a b : Bytes) → has_byte c (a ++ b) ≡ (has_byte c a || has_byte c b)
unfolding has_byte
has_byte-append c [] b = refl
has_byte-append c (x ∷ a) b = ground (arith, has_byte-append c a b)

-- A string that starts with the pattern.
strip_prefix_self : (pat s : Bytes) → strip_prefix pat (pat ++ s) ≡ some s
unfolding strip_prefix
strip_prefix_self [] s = refl
strip_prefix_self (p ∷ pat) s = rw ((==_iff p p).1 refl) (strip_prefix_self pat s)

split_first_here :
    (pat s rest : Bytes) → strip_prefix pat s ≡ some rest → split_first pat s ≡ some ([], rest)
unfolding split_first
split_first_here pat [] rest e = rw (split_first, e) refl
split_first_here pat (c ∷ s) rest e = rw (split_first, e) refl

split_first_later :
    (pat : Bytes) (c : ℕ) (s : Bytes)
    → strip_prefix pat (c ∷ s) ≡ none
    → split_first pat (c ∷ s) ≡ (split_first pat s >>= λ r. some (c ∷ r.0, r.1))
unfolding split_first
split_first_later pat c s e = rw (split_first, e) refl

strip_prefix_apart :
    (p c : ℕ) (pat s : Bytes) → (p == c) ≡ false → strip_prefix (p ∷ pat) (c ∷ s) ≡ none
unfolding strip_prefix
strip_prefix_apart p c pat s apart = rw apart refl

-- The pattern is found behind a part that does not have its first byte.
pub split_first-append :
    (p : ℕ) (pat a s : Bytes)
    → has_byte p a ≡ false
    → split_first (p ∷ pat) (a ++ ((p ∷ pat) ++ s)) ≡ some (a, s)
unfolding split_first has_byte
split_first-append p pat [] s h =
    split_first_here (p ∷ pat) ((p ∷ pat) ++ s) s (strip_prefix_self (p ∷ pat) s)
split_first-append p pat (c ∷ a) s h =
    split_first_later (p ∷ pat) c (a ++ ((p ∷ pat) ++ s))
      (strip_prefix_apart p c pat (a ++ ((p ∷ pat) ++ s)) (ground arith))
    ∙ rw (split_first-append p pat a s (ground arith)) refl

-- The last byte `c` is found before a part that does not have it.
pub split_last-none : (c : ℕ) (s : Bytes) → has_byte c s ≡ false → split_last c s ≡ none
unfolding split_last has_byte
split_last-none c [] h = refl
split_last-none c (b ∷ s) h =
    let apart : (b == c) ≡ false = ground arith in
    rw (split_last-none c s (ground arith), apart) refl

pub split_last-append :
    (c : ℕ) (a s : Bytes) → has_byte c s ≡ false → split_last c (a ++ c ∷ s) ≡ some (a, s)
unfolding split_last
split_last-append c [] s h = rw (split_last-none c s h, (==_iff c c).1 refl) refl
split_last-append c (b ∷ a) s h = rw (split_last-append c a s h) refl
