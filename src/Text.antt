-- ===== src/Text.antt =====
-- `str.strip` of Python on the native texts.
use Prim.Native.Char.{code}
use Prim.Native.String.{◌++◌}
use smart_ids.Base.{
  ℕ, String, Bool, true, false, ◌&&◌, ◌||◌, ◌≡◌, refl, ap, ◌∙◌, leb, nat_eq, ◌==◌, if◌then◌else◌,
  Bool-cases, inl, inr,
}

abbrev pub concat : String → String → String
concat s t = s ++ t

-- The code points for which `str.isspace` holds.
unfoldable pub is_space : ℕ → Bool
is_space c =
    (leb 9 c && leb c 13)
    || (leb 28 c && leb c 32)
    || c == 0x85
    || c == 0xa0
    || c == 0x1680
    || (leb 0x2000 c && leb c 0x200a)
    || c == 0x2028
    || c == 0x2029
    || c == 0x202f
    || c == 0x205f
    || c == 0x3000

abbrev pub is_blank : String → Bool
is_blank String.[] = true
is_blank (String.◌∷◌ c s) = false

unfoldable pub lstrip : String → String
unfolding is_space
lstrip String.[] = String.[]
lstrip (String.◌∷◌ c s) = if is_space (code c) then lstrip s else String.◌∷◌ c s

unfoldable pub rstrip : String → String
unfolding is_space
rstrip String.[] = String.[]
rstrip (String.◌∷◌ c s) =
    let rest = rstrip s in
    if is_space (code c) && is_blank rest then String.[] else String.◌∷◌ c rest

unfoldable pub strip : String → String
unfolding lstrip rstrip
strip s = rstrip (lstrip s)

abbrev StartsWell : String → Type 0
StartsWell String.[] = Unit
StartsWell (String.◌∷◌ c s) = is_space (code c) ≡ false

lstrip-StartsWell : (s : String) → StartsWell (lstrip s)
unfolding lstrip
lstrip-StartsWell String.[] = tt
lstrip-StartsWell (String.◌∷◌ c s) = elim (Bool-cases (is_space (code c))) [
  | inl e ↦ rw e (lstrip-StartsWell s)
  | inr e ↦ rw e e
]

rstrip-StartsWell : (s : String) → StartsWell s → StartsWell (rstrip s)
unfolding rstrip
rstrip-StartsWell String.[] h = tt
rstrip-StartsWell (String.◌∷◌ c s) h = rw h h

lstrip_same : (s : String) → StartsWell s → lstrip s ≡ s
unfolding lstrip
lstrip_same String.[] h = refl
lstrip_same (String.◌∷◌ c s) h = rw h refl

rstrip-rstrip : (s : String) → rstrip (rstrip s) ≡ rstrip s
unfolding rstrip
rstrip-rstrip String.[] = refl
rstrip-rstrip (String.◌∷◌ c s) = elim (Bool-cases (is_space (code c) && is_blank (rstrip s))) [
  | inl e ↦ rw e refl
  | inr e ↦ rw e (rw (rstrip-rstrip s, e) refl)
]

pub strip-strip : (s : String) → strip (strip s) ≡ strip s
unfolding strip
strip-strip s =
    ap rstrip (lstrip_same (rstrip (lstrip s)) (rstrip-StartsWell (lstrip s) (lstrip-StartsWell s)))
    ∙ rstrip-rstrip (lstrip s)
