-- ===== src/Env/Attributs/RoundTrip.antt =====
-- What the environment reads of the message of an agent.
use Prim.Native.Char.{Char, code}
use Prim.Native.String.{◌++◌}
use text.Mathlib.TextLemmas.{cons-append, nil-append, append_assoc}
use g_agent.Base.{
  String, List, [], ◌∷◌, Bool, true, false, ◌||◌, Option, none, some, ◌==◌, nat_key, string_key,
  lookup, insert, lookup-insert, IsDistinct, Fresh-lookup, All, ◌≡◌, refl, sym, ap, ◌∙◌, eq_iff,
  Bool-cases, inl, inr, subst,
}
use g_agent.Env.Attributs.{
  Attributs, attributs_text, semicolon, colon, pieces, before_it, split_pair, store, store_all,
  parse_key_val_seq,
}

abbrev pub has : Char → String → Bool
has d String.[] = false
has d (String.◌∷◌ c s) = code c == code d || has d s

-- Keys have no separators, and values no semicolon.
abbrev pub IsPlain : Attributs → Type 0
IsPlain m =
    All (λ e. (has semicolon e.0 ≡ false) × (has colon e.0 ≡ false) × (has semicolon e.1 ≡ false)) m

either_false : (a b : Bool) → (a || b) ≡ false → (a ≡ false) × (b ≡ false)
either_false true b h = cc
either_false false b h = (refl, h)

-- A one-character text in front.
in_front : (d : Char) (s : String) → String.◌∷◌ d String.[] ++ s ≡ String.◌∷◌ d s
in_front d s = cons-append d String.[] s ∙ ap (λ t. String.◌∷◌ d t) (nil-append s)

pieces-append :
    (a s : String)
    → has semicolon a ≡ false
    → pieces (a ++ ";" ++ s) ≡ (a, (pieces s).0 ∷ (pieces s).1)
unfolding pieces
pieces-append String.[] s h = ap pieces (nil-append (";" ++ s) ∙ in_front semicolon s)
pieces-append (String.◌∷◌ c a) s h =
    let (other, rest) = either_false (code c == code semicolon) (has semicolon a) h in
    ap pieces (cons-append c a (";" ++ s))
    ∙ rw other (ap (λ p. (String.◌∷◌ c p.0, p.1)) (pieces-append a s rest))

split_pair-append : (k v : String) → has colon k ≡ false → split_pair (k ++ ":" ++ v) ≡ some (k, v)
unfolding split_pair
split_pair-append String.[] v h = ap split_pair (nil-append (":" ++ v) ∙ in_front colon v)
split_pair-append (String.◌∷◌ c k) v h =
    let (other, rest) = either_false (code c == code colon) (has colon k) h in
    ap split_pair (cons-append c k (":" ++ v))
    ∙ rw other (ap (before_it c) (split_pair-append k v rest))

has-append : (d : Char) (a b : String) → has d a ≡ false → has d b ≡ false → has d (a ++ b) ≡ false
has-append d String.[] b h g = ap (has d) (nil-append b) ∙ g
has-append d (String.◌∷◌ c a) b h g =
    let (other, rest) = either_false (code c == code d) (has d a) h in
    ap (has d) (cons-append c a b) ∙ rw other (has-append d a b rest g)

-- One attribute of the message.
abbrev pair_text : String × String → String
pair_text e = e.0 ++ ":" ++ e.1

-- The message, cut at its semicolons.
all_pieces : String → List String
all_pieces s = (pieces s).0 ∷ (pieces s).1

texts : Attributs → List String
texts [] = "" ∷ []
texts (e ∷ m) = pair_text e ∷ texts m

pieces-attributs_text : (m : Attributs) → IsPlain m → all_pieces (attributs_text m) ≡ texts m
unfolding all_pieces texts attributs_text pieces
pieces-attributs_text [] h = refl
pieces-attributs_text ((k, v) ∷ m) h =
    let (plain_k, no_colon, plain_v) = h.0 in
    let whole : has semicolon (k ++ ":" ++ v) ≡ false =
      has-append semicolon k (":" ++ v) plain_k (ap (has semicolon) (in_front colon v) ∙ plain_v) in
    let same : k ++ ":" ++ v ++ ";" ++ attributs_text m
        ≡ (k ++ ":" ++ v) ++ ";" ++ attributs_text m =
      sym (
        append_assoc k (":" ++ v) (";" ++ attributs_text m)
        ∙ ap (λ t. k ++ t) (append_assoc ":" v (";" ++ attributs_text m))) in
    let cut = pieces-append (k ++ ":" ++ v) (attributs_text m) whole in
    ap all_pieces same
    ∙ (ap (λ p. p.0 ∷ p.1) cut ∙ ap (λ l. (k ++ ":" ++ v) ∷ l) (pieces-attributs_text m h.1))

abbrev or_else_found : Option String → Option String → Option String
or_else_found none o = o
or_else_found (some v) o = some v

lookup-store_all :
    (m n : Attributs) (k : String)
    → IsPlain m
    → IsDistinct m
    → lookup k (store_all (texts m) n) ≡ or_else_found (lookup k m) (lookup k n)
unfolding texts store_all lookup split_pair
lookup-store_all [] n k h d = refl
lookup-store_all ((j, v) ∷ m) n k h d =
    let stored : store (split_pair (pair_text (j, v))) n ≡ insert j v n =
      ap (λ o. store o n) (split_pair-append j v h.0.1) in
    ap (λ q. lookup k (store_all (texts m) q)) stored
    ∙ (lookup-store_all m (insert j v n) k h.1 d.1 ∙ elim (Bool-cases (j == k)) [
      | inl e ↦
          let alone : lookup k m ≡ none =
            subst (λ c. lookup c m ≡ none) ((eq_iff j k).0 e) (Fresh-lookup j m d.0) in
          rw (e, alone) (lookup-insert j k v n ∙ rw e)
      | inr e ↦ rw e (ap (or_else_found (lookup k m)) (lookup-insert j k v n ∙ rw e))
    ])

or_else_found-none : (o : Option String) → or_else_found o none ≡ o
or_else_found-none none = refl
or_else_found-none (some v) = refl

-- The environment finds under every key what the agent has under it, when the agent's keys are
-- distinct and without `:` and `;`, and its values without `;`.
pub parse_key_val_seq-attributs_text :
    (m : Attributs) (k : String)
    → IsPlain m
    → IsDistinct m
    → lookup k (parse_key_val_seq (attributs_text m)) ≡ lookup k m
unfolding parse_key_val_seq all_pieces lookup
parse_key_val_seq-attributs_text m k h d =
    ap (λ l. lookup k (store_all l [])) (pieces-attributs_text m h)
    ∙ (lookup-store_all m [] k h d ∙ or_else_found-none (lookup k m))
