-- ===== src/ModelList/Order/Variants.antt =====
-- A model gives way to a variant with 1M switched on, and to nothing else.
use free_claude_desktop.Prelude.{
  ◌≡◌, ◌≢◌, refl, sym, ap, subst, ◌∙◌, ◌⊎◌, ◌↔◌, inl, inr, String, Bool, true, ◌==◌, eq_iff,
  eq_refl, List, [], ◌∷◌, keep, map, is_empty, arith, Bool-cases, if◌then◌else◌,
}
use free_claude_desktop.Prelude.Members.{
  Member, keep-Member, Member-keep, map-Member, Member-map, any_iff-Member, any_of_Member,
}
use free_claude_desktop.Settings.{HashMap}
use free_claude_desktop.Openai.{ProviderModel}
use free_claude_desktop.ModelList.Provider.{provider_model_id}
use free_claude_desktop.ModelList.Order.{
  model_base_name, is_on, ids_1m, is_member, is_kept, filter_1m_variants,
}

pub is_member_iff : (x : String) (xs : List String) → (is_member x xs ≡ true) ↔ Member x xs
is_member_iff x xs = (
  λ h.
      let (y, m, e) = any_iff-Member (λ y. y == x) xs h in
      subst (λ z. Member z xs) ((eq_iff y x).0 e) m,
  λ m. any_of_Member (λ y. y == x) xs m (eq_refl x),
)

module _ (m1 : HashMap Bool) where
  -- 1M is switched on for the model.
  abbrev pub Has1m : ProviderModel → Type 0
  Has1m model = is_on m1 (provider_model_id model) ≡ true

  abbrev pub base_of : ProviderModel → String
  base_of model = model_base_name (provider_model_id model)

  -- No model of another base, or none with 1M.
  abbrev pub IsAlone : List ProviderModel → ProviderModel → Type 0
  IsAlone models model =
      (other : ProviderModel) → Member other models → Has1m other → base_of other ≢ base_of model

  on-ids :
      (models : List ProviderModel) (model : ProviderModel)
      → Member model models
      → Has1m model
      → Member (provider_model_id model) (ids_1m m1 models)
  on-ids models model m h =
      Member-keep (is_on m1) (map provider_model_id models)
        (Member-map provider_model_id models model m) h

  ids-on :
      (models : List ProviderModel) (model : ProviderModel)
      → Member (provider_model_id model) (ids_1m m1 models)
      → Has1m model
  ids-on models model m = (keep-Member (is_on m1) (map provider_model_id models) m).1

  base_in :
      (models : List ProviderModel) (other : ProviderModel)
      → Member other models
      → Has1m other
      → Member (base_of other) (map model_base_name (ids_1m m1 models))
  base_in models other o on =
      Member-map model_base_name (ids_1m m1 models) (provider_model_id other)
        (on-ids models other o on)

  bases-of :
      (models : List ProviderModel) (base : String)
      → Member base (map model_base_name (ids_1m m1 models))
      → (other : ProviderModel) × Member other models × Has1m other × (base_of other ≡ base)
  bases-of models base m =
      let (pid, there, e) = map-Member model_base_name (ids_1m m1 models) base m in
      let (inside, on) = keep-Member (is_on m1) (map provider_model_id models) there in
      let (other, o, same) = map-Member provider_model_id models pid inside in
      (other, o, subst (λ p. is_on m1 p ≡ true) same on, sym (e ∙ ap model_base_name same))

  is_kept_iff :
      (models : List ProviderModel) (model : ProviderModel)
      → Member model models
      → (is_kept
            (map model_base_name (ids_1m m1 models))
            (ids_1m m1 models)
            (provider_model_id model)
          ≡ true)
        ↔ (Has1m model ⊎ IsAlone models model)
  is_kept_iff models model m = (why, back)
    where
      bases : List String
      bases = map model_base_name (ids_1m m1 models)

      in_bases :
          (other : ProviderModel)
          → Member other models
          → Has1m other
          → is_member (base_of other) bases ≡ true
      in_bases other o on = (is_member_iff (base_of other) bases).1 (base_in models other o on)

      why :
          is_kept bases (ids_1m m1 models) (provider_model_id model) ≡ true
          → Has1m model ⊎ IsAlone models model
      why h = elim (Bool-cases (is_member (provider_model_id model) (ids_1m m1 models))) [
        | inl on ↦ inl (
            ids-on models model ((is_member_iff (provider_model_id model) (ids_1m m1 models)).0 on))
        | inr off ↦ inr (λ other o on e.
            absurd (ground (arith, subst (λ b. is_member b bases ≡ true) e (in_bases other o on))))
      ]

      back :
          Has1m model ⊎ IsAlone models model
          → is_kept bases (ids_1m m1 models) (provider_model_id model) ≡ true
      back (inl on) = ground (
        arith,
        (is_member_iff (provider_model_id model) (ids_1m m1 models)).1 (on-ids models model m on),
      )
      back (inr alone) = elim (Bool-cases (is_member (base_of model) bases)) [
        | inl there ↦
            let (other, o, on, e) =
              bases-of models (base_of model) ((is_member_iff (base_of model) bases).0 there) in
            absurd (alone other o on e)
        | inr apart ↦ ground arith
      ]

  kept_or_all :
      (models : List ProviderModel) (bases : List String)
      → bases ≡ map model_base_name (ids_1m m1 models)
      → (model : ProviderModel)
      → Member model (
          if is_empty bases
          then models
          else keep (λ x. is_kept bases (ids_1m m1 models) (provider_model_id x)) models)
        ↔ (Member model models × (Has1m model ⊎ IsAlone models model))
  kept_or_all models [] e model = (
    λ m. (
      m,
      inr (λ other o on same.
          elim (subst (Member (base_of other)) (sym e) (base_in models other o on)) [ ]),
    ),
    λ (m, h). m,
  )
  kept_or_all models (b ∷ bs) e model = (
    λ m.
        let (there, k) =
          keep-Member (λ x. is_kept (b ∷ bs) (ids_1m m1 models) (provider_model_id x)) models m in
        (
          there,
          (is_kept_iff models model there).0 (
              subst (λ bases. is_kept bases (ids_1m m1 models) (provider_model_id model) ≡ true) e
                k),
        ),
    λ (m, h).
        Member-keep (λ x. is_kept (b ∷ bs) (ids_1m m1 models) (provider_model_id x)) models m
          (subst (λ bases. is_kept bases (ids_1m m1 models) (provider_model_id model) ≡ true)
            (sym e) ((is_kept_iff models model m).1 h)),
  )

  -- A model stays in the list exactly when 1M is switched on for it, or no model of the list with
  -- the same base name has 1M switched on.
  pub filter_1m_variants_iff :
      (models : List ProviderModel) (model : ProviderModel)
      → Member model (filter_1m_variants models m1)
        ↔ (Member model models × (Has1m model ⊎ IsAlone models model))
  unfolding filter_1m_variants
  filter_1m_variants_iff models model =
      kept_or_all models (map model_base_name (ids_1m m1 models)) refl model
