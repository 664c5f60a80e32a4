-- ===== src/ModelList/Order/Sorted.antt =====
-- The order in which the models are listed.
use free_claude_desktop.Prelude.{
  ℕ, ◌≡◌, String, Bool, ◌&&◌, ◌||◌, List, keep, arith, ltb, eqb, if-elim, is_empty, map,
}
use free_claude_desktop.Prelude.TextOrder.{
  text_less, text_less_trans, not-text_less_trans, text_less_irrefl,
}
use free_claude_desktop.Prelude.Minimum.{IsOrder}
use free_claude_desktop.Prelude.Sort.Laws.{
  IsSorted, are_equivalent, sort_by-IsSorted, sort_by-keep, keep-IsSorted,
}
use free_claude_desktop.Settings.{HashMap}
use free_claude_desktop.Openai.{ProviderModel}
use free_claude_desktop.ModelList.Provider.{provider_model_id}
use free_claude_desktop.ModelList.Order.{
  model_less, sort_name, sort_and_dedup_models, filter_1m_variants, ids_1m, is_kept,
  model_base_name,
}

lexicographic : (p q : ℕ) (s t : String) → Bool
lexicographic p q s t = ltb p q || (eqb p q && text_less s t)

model_less-IsOrder : IsOrder model_less
unfolding model_less
model_less-IsOrder = record {
  trans = λ a b c h k. ground (arith, text_less_trans (sort_name a) (sort_name b) (sort_name c));
  not_trans =
      λ a b c h k. ground (arith, not-text_less_trans (sort_name a) (sort_name b) (sort_name c));
  irrefl = λ a. ground (arith, text_less_irrefl (sort_name a));
}

-- The sorted models are in order, free ones first and then by name, and the models that are equal
-- in this order keep their order and their number.
sort_and_dedup_models-IsSorted :
    (models : List ProviderModel)
    → IsSorted model_less (sort_and_dedup_models models)
      × ((model : ProviderModel)
          → keep (are_equivalent model_less model) (sort_and_dedup_models models)
            ≡ keep (are_equivalent model_less model) models)
unfolding sort_and_dedup_models
sort_and_dedup_models-IsSorted models = (
  sort_by-IsSorted model_less model_less-IsOrder models,
  λ model. sort_by-keep model_less model_less-IsOrder model models,
)

pub filter_1m_variants-IsSorted :
    (models : List ProviderModel) (m1 : HashMap Bool)
    → IsSorted model_less models
    → IsSorted model_less (filter_1m_variants models m1)
unfolding filter_1m_variants
filter_1m_variants-IsSorted models m1 h =
    if-elim (IsSorted model_less) (is_empty (map model_base_name (ids_1m m1 models))) (λ t. h)
      (λ f.
        keep-IsSorted model_less
          (λ model.
            is_kept (map model_base_name (ids_1m m1 models)) (ids_1m m1 models)
              (provider_model_id model))
          models h)
