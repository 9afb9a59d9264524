-- ===== src/WeaConsole/Links.antt =====
-- What a card shows of the resource that was paid for.
use Prim.Native.Char.{Char, code}
use Prim.Native.String.{String, [], ◌∷◌}
use text.Mathlib.TextLemmas.{nil-append, cons-append}
use x402_token_market.Base.{◌==◌, ◌≡◌, ◌≢◌, refl, Bool, true, false, none, some, ◌⊕◌, Free, arith}
use x402_token_market.WeaConsole.View.{
  after_prefix, after_scheme, after_host, strip_host, strip_origin,
}

after_prefix-append : (p s : String) → after_prefix p (p ⊕ s) ≡ some s
unfolding after_prefix
after_prefix-append [] s = rw (nil-append s) refl
after_prefix-append (c ∷ p) s =
    let same : (code c == code c) ≡ true = ground arith in
    rw (cons-append c p s, same) (after_prefix-append p s)

insecure : (s : String) → after_prefix "https://" ("http://" ⊕ s) ≡ none
unfolding after_prefix
insecure s =
    rw
      (
        cons-append "h" "ttp://" s,
        cons-append "t" "tp://" s,
        cons-append "t" "p://" s,
        cons-append "p" "://" s,
        cons-append ":" "//" s,
      )
      refl

abbrev pub scheme : Bool → String
scheme true = "https://"
scheme false = "http://"

after_scheme-append : (secure : Bool) (s : String) → after_scheme (scheme secure ⊕ s) ≡ some s
unfolding after_scheme
after_scheme-append true s = rw (after_prefix-append "https://" s) refl
after_scheme-append false s = rw (insecure s) (after_prefix-append "http://" s)

not_slash : (c : Char) → code c ≢ code "/" → (code c == 47) ≡ false
not_slash c h = ground (arith, h)

after_host-append : (h path : String) → Free "/" h → after_host (h ⊕ ("/" ∷ path)) ≡ "/" ∷ path
unfolding after_host
after_host-append [] path f = rw (nil-append ("/" ∷ path)) refl
after_host-append (c ∷ h) path f =
    rw (cons-append c h ("/" ∷ path), not_slash c f.0) (after_host-append h path f.1)

-- Of a resource at a host, a card shows its path, from the first slash after the host on.
pub strip_origin-append :
    (secure : Bool) (c : Char) (h path : String)
    → Free "/" (c ∷ h)
    → strip_origin (scheme secure ⊕ (c ∷ h) ⊕ ("/" ∷ path)) ≡ "/" ∷ path
unfolding strip_origin strip_host
strip_origin-append secure c h path f =
    rw
      (
        after_scheme-append secure ((c ∷ h) ⊕ ("/" ∷ path)),
        cons-append c h ("/" ∷ path),
        not_slash c f.0,
      )
      (after_host-append h path f.1)
