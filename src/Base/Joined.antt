-- ===== src/Base/Joined.antt =====
-- Texts that are joined by a separator which none of them holds.
use Prim.Native.Char.{Char, code}
use Prim.Native.String.{String, [], ◌∷◌}
use text.Mathlib.TextLemmas.{nil-append, cons-append, cons-eq-cons}
use mathlib.Core.Path.{◌≡◌, refl, sym, ap, ◌∙◌}
use mathlib.Core.Logic.{◌≢◌}
use x402_token_market.Base.Text.{◌⊕◌}

-- The separator does not occur in the text.
abbrev pub Free : Char → String → Type 0
Free sep [] = Unit
Free sep (c ∷ s) = (code c ≢ code sep) × Free sep s

join_nil : (sep : Char) (u : String) → "" ⊕ (sep ∷ "") ⊕ u ≡ sep ∷ u
join_nil sep u =
    nil-append ((sep ∷ "") ⊕ u) ∙ cons-append sep "" u ∙ ap (λ r. sep ∷ r) (nil-append u)

-- The text up to the first separator, and what follows it, are determined.
pub joined_split :
    (sep : Char) (s t u v : String)
    → Free sep s
    → Free sep t
    → s ⊕ (sep ∷ "") ⊕ u ≡ t ⊕ (sep ∷ "") ⊕ v
    → (s ≡ t) × (u ≡ v)
joined_split sep [] [] u v hs ht e =
    (refl, (cons-eq-cons.0 (sym (join_nil sep u) ∙ e ∙ join_nil sep v)).1)
joined_split sep [] (d ∷ t) u v hs ht e =
    absurd (ht.0 (ap code (sym (cons-eq-cons.0 (sym (join_nil sep u) ∙ e ∙ cons-append d t _)).0)))
joined_split sep (c ∷ s) [] u v hs ht e =
    absurd (hs.0 (ap code (cons-eq-cons.0 (sym (cons-append c s _) ∙ e ∙ join_nil sep v)).0))
joined_split sep (c ∷ s) (d ∷ t) u v hs ht e =
    let (same, rest) = cons-eq-cons.0 (sym (cons-append c s _) ∙ e ∙ cons-append d t _) in
    let (front, back) = joined_split sep s t u v hs.1 ht.1 rest in
    (cons-eq-cons.1 (same, front), back)
