-- ===== src/Core/Migration/Attributes.antt =====
-- The attributes of a migrating agent in the message of src/core/Agent.cpp.
use Prim.Native.Char.{Char, code}
use Prim.Native.String.{◌++◌}
use text.Mathlib.TextLemmas.{cons-append, nil-append}
use g_agent.Base.{
  String, List, [], ◌∷◌, true, false, not, Option, none, some, ◌==◌, nat_key, string_key, eq_iff,
  lookup, insert, contains, lookup-insert, lookup-insert_self, All, IsDistinct, both_true,
  append-glue, ◌≡◌, refl, sym, ap, ◌∙◌, Bool-cases, inl, inr,
}
use g_agent.Env.Attributs.{
  Attributs, attributs_text, add_attribut, set_attribut, pieces, split_pair, store, store_all,
  parse_key_val_seq, semicolon, colon,
}
use g_agent.Env.Attributs.RoundTrip.{has, IsPlain, parse_key_val_seq-attributs_text}
use g_agent.Platform.Input.{is_space}
use g_agent.Platform.Input.Words.{spaceless}
use g_agent.Core.Migration.{attributs_word, restore_pair, restore_all, restore}

lookup-set_attribut :
    (j v k : String) (n : Attributs)
    → lookup k (set_attribut j v (add_attribut j n)) ≡ lookup k (insert j v n)
unfolding set_attribut add_attribut
lookup-set_attribut j v k n = elim (Bool-cases (contains j n)) [
  | inl e ↦ rw e (rw e refl)
  | inr e ↦
      let new : contains j (insert j "" n) ≡ true = contains-insert j n in
      rw e (
        rw new (
          lookup-insert j k v (insert j "" n) ∙ elim (Bool-cases (j == k)) [
            | inl g ↦ rw g (sym (lookup-insert j k v n ∙ rw g refl))
            | inr g ↦ rw g (lookup-insert j k "" n ∙ rw g (sym (lookup-insert j k v n ∙ rw g refl)))
          ]))
]
  where
    contains-insert : (j : String) (n : Attributs) → contains j (insert j "" n) ≡ true
    contains-insert j n = rw (lookup-insert_self j "" n) refl

-- Restoring one by one gives every key the value that storing them in a map gives it.
restore_all-store_all :
    (ts : List String) (a b : Attributs)
    → ((k : String) → lookup k a ≡ lookup k b)
    → (k : String) → lookup k (restore_all ts a) ≡ lookup k (store_all ts b)
unfolding restore_all store_all
restore_all-store_all [] a b h k = h k
restore_all-store_all (t ∷ ts) a b h k =
    restore_all-store_all ts (restore_pair (split_pair t) a) (store (split_pair t) b)
      (same (split_pair t) a b h) k
  where
    same :
        (o : Option (String × String)) (a b : Attributs)
        → ((k : String) → lookup k a ≡ lookup k b)
        → (k : String) → lookup k (restore_pair o a) ≡ lookup k (store o b)
    same none a b h k = unfold restore_pair in h k
    same (some (j, v)) a b h k =
        unfold restore_pair in
        lookup-set_attribut j v k a ∙ lookup-insert j k v a ∙ elim (Bool-cases (j == k)) [
          | inl g ↦ rw g (sym (lookup-insert j k v b ∙ rw g refl))
          | inr g ↦ rw g (h k ∙ sym (lookup-insert j k v b ∙ rw g refl))
        ]

-- No blanks and line ends in the keys and values.
abbrev pub IsSpaceless : Attributs → Type 0
IsSpaceless m = All (λ e. (spaceless e.0 ≡ true) × (spaceless e.1 ≡ true)) m

spaceless-append :
    (s t : String) → spaceless s ≡ true → spaceless t ≡ true → spaceless (s ++ t) ≡ true
spaceless-append String.[] t h k = rw (nil-append t) k
spaceless-append (String.◌∷◌ c s) t h k =
    let (first, rest) = both_true (not (is_space c)) (spaceless s) h in
    rw (cons-append c s t) (rw first (spaceless-append s t rest k))

spaceless-attributs_text : (m : Attributs) → IsSpaceless m → spaceless (attributs_text m) ≡ true
unfolding attributs_text
spaceless-attributs_text [] h = refl
spaceless-attributs_text ((k, v) ∷ m) h =
    let rest = attributs_text m in
    let t3 : spaceless (";" ++ rest) ≡ true =
      spaceless-append ";" rest refl (spaceless-attributs_text m h.1) in
    let t2 : spaceless (v ++ (";" ++ rest)) ≡ true = spaceless-append v (";" ++ rest) h.0.1 t3 in
    let t1 : spaceless (":" ++ (v ++ (";" ++ rest))) ≡ true =
      spaceless-append ":" (v ++ (";" ++ rest)) refl t2 in
    spaceless-append k (":" ++ (v ++ (";" ++ rest))) h.0.0 t1

has-append_right : (d : Char) (s t : String) → has d t ≡ true → has d (s ++ t) ≡ true
has-append_right d String.[] t h = rw (nil-append t) h
has-append_right d (String.◌∷◌ c s) t h =
    rw (cons-append c s t) (elim (Bool-cases (code c == code d)) [
      | inl e ↦ rw e refl
      | inr e ↦ rw e (has-append_right d s t h)
    ])

-- The text of some attributes is not the dash that stands for none.
attributs_text-no_dash :
    (e : String × String) (m : Attributs) → (attributs_text (e ∷ m) == "-") ≡ false
unfolding attributs_text
attributs_text-no_dash (k, v) m = elim (Bool-cases (attributs_text ((k, v) ∷ m) == "-")) [
  | inr e ↦ e
  | inl e ↦
      absurd (
        true-false (sym semi ∙ ap (has semicolon) ((eq_iff (attributs_text ((k, v) ∷ m)) "-").0 e)))
]
  where
    true-false : true ≡ false → ⊥
    true-false h = cc

    semi : has semicolon (k ++ (":" ++ (v ++ (";" ++ attributs_text m)))) ≡ true
    semi =
        let rest = attributs_text m in
        let t3 : has semicolon (";" ++ rest) ≡ true = rw (append-glue ";" rest) refl in
        has-append_right semicolon k (":" ++ (v ++ (";" ++ rest))) (
          has-append_right semicolon ":" (v ++ (";" ++ rest))
            (has-append_right semicolon v (";" ++ rest) t3))

-- The word of the attributes has no blanks, and restoring it in a new agent without attributes gives
-- every key the value it had.
pub spaceless-attributs_word : (m : Attributs) → IsSpaceless m → spaceless (attributs_word m) ≡ true
unfolding attributs_word
spaceless-attributs_word m h = elim (Bool-cases (attributs_text m == "")) [
  | inl e ↦ rw e refl
  | inr e ↦ rw e (spaceless-attributs_text m h)
]

full-attributs_text : (e : String × String) (m : Attributs) → (attributs_text (e ∷ m) == "") ≡ false
unfolding attributs_text
full-attributs_text (k, v) m = elim (Bool-cases (attributs_text ((k, v) ∷ m) == "")) [
  | inr e ↦ e
  | inl e ↦
      absurd
        (false-true (sym (ap (has colon) ((eq_iff (attributs_text ((k, v) ∷ m)) "").0 e)) ∙ mark))
]
  where
    false-true : false ≡ true → ⊥
    false-true h = cc

    mark : has colon (k ++ (":" ++ (v ++ (";" ++ attributs_text m)))) ≡ true
    mark =
        let rest = v ++ (";" ++ attributs_text m) in
        let t1 : has colon (":" ++ rest) ≡ true = rw (append-glue ":" rest) refl in
        has-append_right colon k (":" ++ rest) t1

pub restore-attributs_word :
    (m : Attributs) (k : String)
    → IsPlain m
    → IsDistinct m
    → lookup k (restore (attributs_word m) []) ≡ lookup k m
unfolding restore attributs_word
restore-attributs_word [] k h d = unfold attributs_text in refl
restore-attributs_word (e ∷ m) k h d = rw (full-attributs_text e m) (
    rw (attributs_text-no_dash e m) (
      restore_all-store_all
        ((pieces (attributs_text (e ∷ m))).0 ∷ (pieces (attributs_text (e ∷ m))).1) [] []
        (λ j. refl) k
      ∙ stored (e ∷ m) h d))
  where
    stored :
        (m : Attributs)
        → IsPlain m
        → IsDistinct m
        → lookup k (store_all ((pieces (attributs_text m)).0 ∷ (pieces (attributs_text m)).1) [])
          ≡ lookup k m
    stored m h d = unfold parse_key_val_seq in parse_key_val_seq-attributs_text m k h d
