-- ===== src/Memory/Init/Clear.antt =====
-- memory.c and util.h: the words that a `memset` clears.
use xis.Prelude.Maps.{update}
use xis.Prelude.{
  ℕ, zero, suc, ◌+◌, ◌*◌, ◌≤◌, ◌<◌, ◌≡◌, ◌⊎◌, refl, ap, sym, ◌∙◌, arith, ne→==, ==_refl,
}
use xis.Page32.{Words}
use xis.Memory.Init.{clear_words}

pub clear_words-outside :
    (n p : ℕ) (m : Words) (a : ℕ) → (a < p) ⊎ (p + 4 * n ≤ a) → clear_words n p m a ≡ m a
unfolding clear_words
clear_words-outside zero p m a h = refl
clear_words-outside (suc n) p m a h =
    clear_words-outside n (p + 4) (update m p 0) a (omega arith)
    ∙ rw (ne→== p a (λ e. omega arith)) refl

pub clear_words_lem : (n p k : ℕ) (m : Words) → k < n → clear_words n p m (p + 4 * k) ≡ 0
unfolding clear_words
clear_words_lem zero p k m l = absurd (omega arith)
clear_words_lem (suc n) p zero m l =
    let here : p ≡ p + 4 * 0 = omega arith in
    ap (clear_words n (p + 4) (update m p 0)) (sym here)
    ∙ clear_words-outside n (p + 4) (update m p 0) p (omega arith)
    ∙ rw (==_refl p) refl
clear_words_lem (suc n) p (suc k) m l =
    let here : p + 4 + 4 * k ≡ p + 4 * suc k = omega arith in
    ap (clear_words n (p + 4) (update m p 0)) (sym here)
    ∙ clear_words_lem n (p + 4) k (update m p 0) (omega arith)
