-- ===== src/CommandLine/Words.antt =====
-- How `str.strip` and `str.split` cut texts that are words joined by single spaces.
use toy_brain.Prelude.{ℕ, Text, Bool, ◌∷◌, [], ◌++◌, true, ◌≡◌, refl, all, not, arith}
use toy_brain.Llm.Parse.{lstrip, rstrip, prepend_kept}
use toy_brain.Kernel.Io.{has_text}
use toy_brain.CommandLine.{first_word, after_word, split_once, split_stripped, with_rest}

module _ (is_space : ℕ → Bool) where
  abbrev pub IsWord : Text → Type 0
  IsWord w = (has_text w ≡ true) × (all (λ c. not (is_space c)) w ≡ true)

  first_word-append :
      (w : Text) (c : ℕ) (s : Text)
      → all (λ d. not (is_space d)) w ≡ true
      → is_space c ≡ true
      → first_word is_space (w ++ c ∷ s) ≡ w
  unfolding first_word
  first_word-append [] c s h k = rw k refl
  first_word-append (d ∷ w) c s h k = ground (arith, first_word-append w c s)

  after_word-append :
      (w : Text) (c : ℕ) (s : Text)
      → all (λ d. not (is_space d)) w ≡ true
      → is_space c ≡ true
      → after_word is_space (w ++ c ∷ s) ≡ c ∷ s
  unfolding after_word
  after_word-append [] c s h k = rw k refl
  after_word-append (d ∷ w) c s h k = ground (arith, after_word-append w c s)

  pub lstrip-word : (w s : Text) → IsWord w → lstrip is_space (w ++ s) ≡ w ++ s
  unfolding lstrip
  lstrip-word [] s h = absurd (cc h.0)
  lstrip-word (d ∷ w) s h = ground (arith, h.1)

  prepend_kept_text : (c : ℕ) (s : Text) → has_text s ≡ true → prepend_kept is_space c s ≡ c ∷ s
  prepend_kept_text c [] h = absurd (cc h)
  prepend_kept_text c (d ∷ s) h = refl

  pub has_text-append : (s t : Text) → has_text t ≡ true → has_text (s ++ t) ≡ true
  has_text-append [] t h = h
  has_text-append (c ∷ s) t h = refl

  -- Nothing is stripped from the right of a text whose last word keeps its end.
  pub rstrip-append :
      (s t : Text) → has_text t ≡ true → rstrip is_space t ≡ t → rstrip is_space (s ++ t) ≡ s ++ t
  unfolding rstrip
  rstrip-append [] t h k = k
  rstrip-append (c ∷ s) t h k =
      rw (rstrip-append s t h k) (prepend_kept_text c (s ++ t) (has_text-append s t h))

  lstrip_space :
      (c : ℕ) (s : Text) → is_space c ≡ true → lstrip is_space (c ∷ s) ≡ lstrip is_space s
  unfolding lstrip
  lstrip_space c s k = rw k refl

  with_rest_text : (w s : Text) → has_text s ≡ true → with_rest w s ≡ w ∷ s ∷ []
  with_rest_text w [] t = absurd (cc t)
  with_rest_text w (c ∷ s) t = refl

  split_stripped_word :
      (w : Text) (c : ℕ) (s : Text)
      → IsWord w
      → is_space c ≡ true
      → split_stripped is_space (w ++ c ∷ s) ≡ with_rest w (lstrip is_space s)
  unfolding split_stripped
  split_stripped_word [] c s h k = absurd (cc h.0)
  split_stripped_word (d ∷ w) c s h k =
      cc (
        first_word-append (d ∷ w) c s h.1 k,
        after_word-append (d ∷ w) c s h.1 k,
        lstrip_space c s k,
      )

  pub split_once-word :
      (w : Text) (c : ℕ) (s : Text)
      → IsWord w
      → is_space c ≡ true
      → has_text s ≡ true
      → lstrip is_space s ≡ s
      → split_once is_space (w ++ c ∷ s) ≡ w ∷ s ∷ []
  unfolding split_once split_stripped
  split_once-word w c s h k t u =
      rw (lstrip-word w (c ∷ s) h, split_stripped_word w c s h k, u) (with_rest_text w s t)
