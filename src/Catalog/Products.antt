-- ===== src/Catalog/Products.antt =====
-- The catalogue `marvieProducts` of haba/src/lib/haba/products.ts, in its order.
use x402_token_market.Base.{none, some, List, [], ◌∷◌}
use x402_token_market.Catalog.Types.{
  MarvieProduct, sweetener_liquid, sweetener_powder, jam, candy, cooking_aid, drink, cooking,
  for_diabetic_household, for_elderly, zero_calorie, cold_soluble, bakery, replace_sugar_1_to_1,
  bakery_heat_stable, low_calorie, for_dietitian, breakfast, no_added_sugar, for_weight_loss,
}

abbrev pub liquid_200ml : MarvieProduct
liquid_200ml = record {
  id = "marvie_liquid_200ml";
  sku = "MARVIE-LQ-200";
  name = "MARVIE Liquid Sweetener · 200ml";
  short_name = "液体甜味料 200ml";
  category = sweetener_liquid;
  tags = drink ∷ cooking ∷ for_diabetic_household ∷ for_elderly ∷ zero_calorie ∷ cold_soluble ∷ [];
  price_jpy = 1580;
  calories = 0;
  serving_label = "5ml（约 1 小匙）";
  sweetness_ratio_to_sugar = some 200;
  ingredients = "精制水" ∷ "赤藓糖醇" ∷ "甜菊糖苷" ∷ "枸橼酸" ∷ [];
  image_emoji = "🧴";
  short_pitch = "0 kcal · 凉热饮直接滴，不结块";
  long_description = "甜度约砂糖的 200 倍，液体形态最适合咖啡、红茶、酸奶等饮品。冷热水都能瞬间溶解，没有粉末甜味料偶尔出现的结块问题。";
  inventory_snapshot = some (
      record { store_name = "ABC 药局梅田店"; qty = 3 }
      ∷ record { store_name = "ABC 药局难波店"; qty = 0 }
      ∷ []);
}

abbrev pub powder_250g : MarvieProduct
powder_250g = record {
  id = "marvie_powder_250g";
  sku = "MARVIE-PW-250";
  name = "MARVIE Powder Sweetener · 250g";
  short_name = "粉末甜味料 250g";
  category = sweetener_powder;
  tags =
      cooking ∷ bakery ∷ replace_sugar_1_to_1 ∷ bakery_heat_stable ∷ for_diabetic_household
      ∷ low_calorie ∷ [];
  price_jpy = 980;
  calories = 15;
  serving_label = "1g";
  sweetness_ratio_to_sugar = some 3;
  ingredients = "赤藓糖醇" ∷ "甜菊糖苷" ∷ [];
  image_emoji = "🧂";
  short_pitch = "1:1 替砂糖 · 烘焙 180℃ 不焦化";
  long_description = "颗粒大小与砂糖一致，**直接 1:1 替换原食谱不用换勺子**。烘焙至 180℃ 不焦化，社内 50 人盲测后味评分 8.4/10。";
  inventory_snapshot = some (
      record { store_name = "ABC 药局梅田店"; qty = 8 }
      ∷ record { store_name = "ABC 药局难波店"; qty = 5 }
      ∷ []);
}

abbrev pub cooking_aid_500g : MarvieProduct
cooking_aid_500g = record {
  id = "marvie_cooking_aid_500g";
  sku = "MARVIE-CK-500";
  name = "MARVIE Cooking Aid Sweetener · 500g（業務用）";
  short_name = "烘焙料理替糖 500g";
  category = cooking_aid;
  tags =
      cooking ∷ bakery ∷ bakery_heat_stable ∷ replace_sugar_1_to_1 ∷ for_dietitian ∷ low_calorie
      ∷ [];
  price_jpy = 1780;
  calories = 15;
  serving_label = "1g";
  sweetness_ratio_to_sugar = some 3;
  ingredients = "赤藓糖醇" ∷ "甜菊糖苷" ∷ [];
  image_emoji = "📦";
  short_pitch = "大袋装 · 营养师工作室/烘焙工坊适用";
  long_description = "粉末甜味料的 500g 大袋装，适合营养师工作室、月度烘焙课、企业团购。性价比约普通装的 80%，配方与 250g 完全一致。";
  inventory_snapshot = none;
}

abbrev pub jam_strawberry : MarvieProduct
jam_strawberry = record {
  id = "marvie_jam_strawberry";
  sku = "MARVIE-JM-STR";
  name = "MARVIE Low-Cal Strawberry Jam · 200g";
  short_name = "低卡草莓果酱";
  category = jam;
  tags = breakfast ∷ low_calorie ∷ no_added_sugar ∷ [];
  price_jpy = 720;
  calories = 130;
  serving_label = "1 大匙（约 18g）";
  sweetness_ratio_to_sugar = none;
  ingredients = "草莓" ∷ "赤藓糖醇" ∷ "果胶" ∷ "柠檬汁" ∷ [];
  image_emoji = "🍓";
  short_pitch = "13 kcal/大匙 · 传统果酱卡路里的 1/3";
  long_description = "经典款，老少都接受。无添加蔗糖，用赤藓糖醇调味，能保留草莓本身的酸甜。";
  inventory_snapshot = none;
}

abbrev pub jam_blueberry : MarvieProduct
jam_blueberry = record {
  id = "marvie_jam_blueberry";
  sku = "MARVIE-JM-BLU";
  name = "MARVIE Low-Cal Blueberry Jam · 200g";
  short_name = "低卡蓝莓果酱";
  category = jam;
  tags = breakfast ∷ low_calorie ∷ no_added_sugar ∷ [];
  price_jpy = 720;
  calories = 110;
  serving_label = "1 大匙（约 18g）";
  sweetness_ratio_to_sugar = none;
  ingredients = "蓝莓" ∷ "赤藓糖醇" ∷ "果胶" ∷ "柠檬汁" ∷ [];
  image_emoji = "🫐";
  short_pitch = "11 kcal/大匙 · 抗氧化高、酸度适中";
  long_description = "酸度比草莓款略高，搭配厚切吐司或希腊酸奶尤其合适。";
  inventory_snapshot = none;
}

abbrev pub jam_yuzu : MarvieProduct
jam_yuzu = record {
  id = "marvie_jam_yuzu";
  sku = "MARVIE-JM-YUZ";
  name = "MARVIE Marmalade Yuzu Jam · 200g";
  short_name = "低卡柚子果酱";
  category = jam;
  tags = breakfast ∷ low_calorie ∷ [];
  price_jpy = 780;
  calories = 140;
  serving_label = "1 大匙（约 18g）";
  sweetness_ratio_to_sugar = none;
  ingredients = "日本国产柚子" ∷ "赤藓糖醇" ∷ "果胶" ∷ [];
  image_emoji = "🍊";
  short_pitch = "日本国产柚子 · 苏打水特调";
  long_description = "和歌山县产柚子，可作为吐司涂酱，也可加苏打水做无糖特调饮品。";
  inventory_snapshot = none;
}

abbrev pub candy_mix_80g : MarvieProduct
candy_mix_80g = record {
  id = "marvie_candy_mix_80g";
  sku = "MARVIE-CD-MIX";
  name = "MARVIE Low-Cal Candy Mix · 80g";
  short_name = "低卡糖果混装 80g";
  category = candy;
  tags = for_weight_loss ∷ low_calorie ∷ no_added_sugar ∷ [];
  price_jpy = 580;
  calories = 120;
  serving_label = "1 颗（约 4g）";
  sweetness_ratio_to_sugar = none;
  ingredients = "赤藓糖醇" ∷ "甜菊糖苷" ∷ "天然水果香精" ∷ "柠檬酸" ∷ [];
  image_emoji = "🍬";
  short_pitch = "12 kcal/颗 · 减脂期口腹之欲";
  long_description = "苹果 / 柠檬 / 葡萄 / 梅子四种口味混装，单颗 12 kcal，减脂期解嘴馋的低负担选择。";
  inventory_snapshot = none;
}

abbrev pub marvie_products : List MarvieProduct
marvie_products =
    liquid_200ml ∷ powder_250g ∷ cooking_aid_500g ∷ jam_strawberry ∷ jam_blueberry ∷ jam_yuzu
    ∷ candy_mix_80g ∷ []
