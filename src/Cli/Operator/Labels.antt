-- ===== src/Cli/Operator/Labels.antt =====
-- The checks of cli/operator.go on texts, by the numbers of their characters: DNS labels, and what
-- Go's strings.HasPrefix, strings.HasSuffix and strings.Contains document.
use konductor.Prelude.{
  ◌≡◌, ap, ◌∙◌, ℕ, ◌==◌, ltb, leb, Bool, true, false, not, ◌&&◌, ◌||◌, String, str_append, List, [],
  ◌∷◌, ◌++◌, any, if◌then◌else◌,
}
use Prim.Native.Char.{code}
use Prim.Native.String.{len}
use Prim.Native.String.append

-- `range` over a text. `String` has its own `[]` and `∷`.
unfoldable pub codes : String → List ℕ
codes String.[] = []
codes (String.◌∷◌ c s) = code c ∷ codes s

abbrev pub same : List ℕ → List ℕ → Bool
same [] [] = true
same (c ∷ s) (d ∷ t) = c == d && same s t
same _ _ = false

unfoldable pub begins : List ℕ → List ℕ → Bool
begins s [] = true
begins [] (d ∷ t) = false
begins (c ∷ s) (d ∷ t) = c == d && begins s t

unfoldable pub ends : List ℕ → List ℕ → Bool
ends [] t = same [] t
ends (c ∷ s) t = same (c ∷ s) t || ends s t

unfoldable pub within : List ℕ → List ℕ → Bool
unfolding begins
within [] t = begins [] t
within (c ∷ s) t = begins (c ∷ s) t || within s t

abbrev pub begins_with : String → String → Bool
begins_with s t = begins (codes s) (codes t)

abbrev pub ends_with : String → String → Bool
ends_with s t = ends (codes s) (codes t)

abbrev pub contains : String → String → Bool
contains s t = within (codes s) (codes t)

abbrev pub is_label_char : ℕ → Bool
is_label_char c = (leb b'a' c && leb c b'z') || ((leb b'0' c && leb c b'9') || c == b'-')

abbrev pub first_is : ℕ → List ℕ → Bool
first_is d [] = false
first_is d (c ∷ s) = c == d

abbrev pub last_is : ℕ → List ℕ → Bool
last_is d [] = false
last_is d (c ∷ []) = c == d
last_is d (c ∷ (e ∷ s)) = last_is d (e ∷ s)

unfoldable pub is_valid_dns1123_label : String → Bool
is_valid_dns1123_label label =
    if (len label == 0) || ltb 63 (len label)
    then false
    else if any (λ c. not (is_label_char c)) (codes label)
    then false
    else not (first_is b'-' (codes label)) && not (last_is b'-' (codes label))

abbrev pub is_valid_service_name : String → Bool
is_valid_service_name name = is_valid_dns1123_label name

abbrev pub is_valid_namespace : String → Bool
is_valid_namespace namespace = is_valid_dns1123_label namespace

pub codes-append : (s t : String) → codes (str_append s t) ≡ codes s ++ codes t
unfolding codes
codes-append String.[] t = ap codes (append.nil t)
codes-append (String.◌∷◌ c s) t =
    ap codes (append.cons c s t) ∙ ap (λ r. code c ∷ r) (codes-append s t)
