-- ===== src/Catalog/Types.antt =====
-- The product types of haba/src/lib/haba/types.ts and the sort orders of products.ts.
use x402_token_market.Base.{ℕ, Bool, String, Option, List, str_eq}

pub data ProductCategory : Type 0 where
  sweetener_liquid sweetener_powder jam candy cooking_aid : ProductCategory

pub data ProductTag : Type 0 where
  drink cooking bakery breakfast for_diabetic_household for_elderly for_weight_loss : ProductTag
  for_dietitian zero_calorie low_calorie no_added_sugar keto_friendly : ProductTag
  replace_sugar_1_to_1 bakery_heat_stable cold_soluble : ProductTag

pub record Stock : Type 0 where
  pub store_name : String
  pub qty : ℕ

-- `calories` is `caloriesPerServing.value` in tenths.
pub record MarvieProduct : Type 0 where
  pub id : String
  pub sku : String
  pub name : String
  pub short_name : String
  pub category : ProductCategory
  pub tags : List ProductTag
  pub price_jpy : ℕ
  pub calories : ℕ
  pub serving_label : String
  pub sweetness_ratio_to_sugar : Option ℕ
  pub ingredients : List String
  pub image_emoji : String
  pub short_pitch : String
  pub long_description : String
  pub inventory_snapshot : Option (List Stock)

pub data RecallSortBy : Type 0 where
  calories_asc sweetness_asc price_asc popular_first : RecallSortBy

abbrev pub tag_text : ProductTag → String
tag_text drink = "drink"
tag_text cooking = "cooking"
tag_text bakery = "bakery"
tag_text breakfast = "breakfast"
tag_text for_diabetic_household = "for_diabetic_household"
tag_text for_elderly = "for_elderly"
tag_text for_weight_loss = "for_weight_loss"
tag_text for_dietitian = "for_dietitian"
tag_text zero_calorie = "zero_calorie"
tag_text low_calorie = "low_calorie"
tag_text no_added_sugar = "no_added_sugar"
tag_text keto_friendly = "keto_friendly"
tag_text replace_sugar_1_to_1 = "replace_sugar_1_to_1"
tag_text bakery_heat_stable = "bakery_heat_stable"
tag_text cold_soluble = "cold_soluble"

-- Equality of tags, which `includes` tests.
unfoldable pub same_tag : ProductTag → ProductTag → Bool
same_tag a b = str_eq (tag_text a) (tag_text b)
