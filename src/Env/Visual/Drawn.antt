-- ===== src/Env/Visual/Drawn.antt =====
-- What `make_agent` of src/env/Environnement.cpp draws.
use g_agent.Base.{
  String, List, [], ◌∷◌, Bool, true, false, not, none, if◌then◌else◌, ◌==◌, string_key, lookup,
  or_else, keep, map, IsDistinct, Fresh-lookup, All, eq_iff, ◌≡◌, refl, ap, ◌∙◌, Bool-cases, inl,
  inr, subst,
}
use g_agent.Env.Attributs.{Attributs}
use g_agent.Env.Reports.{Reported}
use g_agent.Env.Json.{Floats, Links}
use g_agent.Env.Visual.{
  VisualAgent, Field, id_field, name_field, pos_x_field, pos_y_field, val_field, shape_field,
  color_field, pattern_field, size_field, size_x_field, size_y_field, size_z_field, other_field,
  later_field, field_of, new_visual, set_field, set_visual, set_visuals, with_shape, with_size,
  kept_visual, make_agent,
}

abbrev is_id : Field → Bool
is_id id_field = true
is_id _ = false

not_id :
    (b : Bool) (f g : Field)
    → is_id f ≡ false
    → is_id g ≡ false
    → is_id (if b then f else g) ≡ false
not_id true f g h k = h
not_id false f g h k = k

is_id-field_of : (l : Links) (k : String) → is_id (field_of l k) ≡ (k == l.id)
unfolding field_of later_field
is_id-field_of l k = elim (Bool-cases (k == l.id)) [
  | inl e ↦ rw e refl
  | inr e ↦ rw e (
      not_id (k == l.name) name_field _ refl (
        not_id (k == l.pos_x) pos_x_field _ refl (
          not_id (k == l.pos_y) pos_y_field _ refl (
            not_id (k == l.val) val_field _ refl (
              not_id (k == l.shape) shape_field _ refl (
                not_id (k == l.color) color_field _ refl (
                  not_id (k == l.pattern) pattern_field _ refl (
                    not_id (k == l.size) size_field _ refl (
                      not_id (k == l.size_x) size_x_field _ refl (
                        not_id (k == l.size_y) size_y_field _ refl
                          (not_id (k == l.size_z) size_z_field other_field refl refl)))))))))))
]

module _ {F : Type 0} (floats : Floats F) where
  set_field-id :
      (f : Field) (text : String) (v : VisualAgent F)
      → (set_field floats f text v).id ≡ (if is_id f then text else v.id)
  unfolding set_field
  set_field-id id_field text v = refl
  set_field-id _ text v = refl

  set_visual-id :
      (l : Links) (k text : String) (v : VisualAgent F)
      → (set_visual floats l k text v).id ≡ (if k == l.id then text else v.id)
  set_visual-id l k text v = chosen ∙ ap (λ b. if b then text else v.id) (is_id-field_of l k)
    where
      chosen : (set_visual floats l k text v).id ≡ (if is_id (field_of l k) then text else v.id)
      chosen = unfold set_visual in set_field-id (field_of l k) text v

  set_visuals-id :
      (l : Links) (m : Attributs) (v : VisualAgent F)
      → IsDistinct m
      → (set_visuals floats l m v).id ≡ or_else (lookup l.id m) v.id
  unfolding set_visuals lookup
  set_visuals-id l [] v h = refl
  set_visuals-id l ((k, text) ∷ m) v h =
      set_visuals-id l m (set_visual floats l k text v) h.1
      ∙ ap (or_else (lookup l.id m)) (set_visual-id l k text v)
      ∙ elim (Bool-cases (k == l.id)) [
        | inl e ↦
            let alone : lookup l.id m ≡ none =
              subst (λ c. lookup c m ≡ none) ((eq_iff k l.id).0 e) (Fresh-lookup k m h.0) in
            rw (e, alone) refl
        | inr e ↦ rw e refl
      ]

  -- Each agent's attributes have distinct keys.
  abbrev pub AllDistinct : Reported → Type 0
  AllDistinct [] = Unit
  AllDistinct ((k, attrs) ∷ m) = IsDistinct attrs × AllDistinct m

  abbrev pub ids_of : Links → Reported → List String
  ids_of l m = map (λ e. or_else (lookup l.id e.1) "") m

  -- What is drawn has a shape and a size.
  record Drawn (v w : VisualAgent F) : Type 0 where
    same_id : w.id ≡ v.id
    has_shape : (w.shape == "") ≡ false
    has_size : floats.is_zero w.size ≡ false

  finished-Drawn :
      (v : VisualAgent F)
      → floats.is_zero floats.five ≡ false
      → Drawn v (with_size floats (with_shape floats v))
  finished-Drawn v h = elim (Bool-cases (v.shape == "")) [
    | inl s ↦ elim (Bool-cases (floats.is_zero v.size)) [
      | inl z ↦ rw (s, z) (record { same_id = refl; has_shape = refl; has_size = h })
      | inr z ↦ rw (s, z) (record { same_id = refl; has_shape = refl; has_size = z })
    ]
    | inr s ↦ elim (Bool-cases (floats.is_zero v.size)) [
      | inl z ↦ rw (s, z) (record { same_id = refl; has_shape = s; has_size = h })
      | inr z ↦ rw (s, z) (record { same_id = refl; has_shape = s; has_size = z })
    ]
  ]

  abbrev pub IsDrawn : VisualAgent F → Type 0
  IsDrawn v = ((v.shape == "") ≡ false) × (floats.is_zero v.size ≡ false)

  kept_visual_lem :
      (v : VisualAgent F) (vs : List (VisualAgent F)) (i : String) (is : List String)
      → v.id ≡ i
      → map (λ v. v.id) vs ≡ keep (λ i. not (i == "")) is
      → All IsDrawn vs
      → floats.is_zero floats.five ≡ false
      → (map (λ v. v.id) (kept_visual floats v vs) ≡ keep (λ i. not (i == "")) (i ∷ is))
        × All IsDrawn (kept_visual floats v vs)
  kept_visual_lem v vs i is e ids drawn f = elim (Bool-cases (i == "")) [
    | inl none_given ↦ rw (ap (λ i. i == "") e ∙ none_given, none_given) (ids, drawn)
    | inr given ↦
        let d = finished-Drawn v f in
        rw (ap (λ i. i == "") e ∙ given, given)
          (
            ap (λ j. j ∷ map (λ v. v.id) vs) (d.same_id ∙ e) ∙ ap (λ l. i ∷ l) ids,
            ((d.has_shape, d.has_size), drawn),
          )
  ]

  -- What is drawn are the agents that report a value for the attribute that identifies them, in the
  -- order of the environment and under that value; each has a shape and a size other than zero. The
  -- keys of each agent's attributes are distinct, and the size that is put in for zero is not zero.
  pub make_agent_lem :
      (l : Links) (m : Reported)
      → AllDistinct m
      → floats.is_zero floats.five ≡ false
      → (map (λ v. v.id) (make_agent floats l m) ≡ keep (λ i. not (i == "")) (ids_of l m))
        × All
            (λ v. ((v.shape == "") ≡ false) × (floats.is_zero v.size ≡ false))
            (make_agent floats l m)
  unfolding make_agent
  make_agent_lem l [] h f = (refl, tt)
  make_agent_lem l ((k, attrs) ∷ m) (d, ds) f =
      let (ids, drawn) = make_agent_lem l m ds f in
      kept_visual_lem (set_visuals floats l attrs (new_visual floats)) (make_agent floats l m)
        (or_else (lookup l.id attrs) "") (ids_of l m) (set_visuals-id l attrs (new_visual floats) d)
        ids drawn f
