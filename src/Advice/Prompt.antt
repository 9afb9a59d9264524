-- ===== src/Advice/Prompt.antt =====
-- What the adviser is told, haba/src/app/api/payment/advise/route.ts: the rules and the catalogue.
use x402_token_market.Base.{
  ℕ, ◌/◌, ◌%◌, ◌==◌, String, Option, none, some, List, [], ◌∷◌, ◌++◌, map, show, ◌⊕◌, join,
  if◌then◌else◌,
}
use x402_token_market.Catalog.{
  MarvieProduct, marvie_products, ProductCategory, sweetener_liquid, sweetener_powder, jam, candy,
  cooking_aid,
}

abbrev pub category_text : ProductCategory → String
category_text sweetener_liquid = "sweetener_liquid"
category_text sweetener_powder = "sweetener_powder"
category_text jam = "jam"
category_text candy = "candy"
category_text cooking_aid = "cooking_aid"

-- A number of tenths, as a template writes it.
unfoldable pub tenths_text : ℕ → String
tenths_text n = if n % 10 == 0 then show (n / 10) else show (n / 10) ⊕ "." ⊕ show (n % 10)

abbrev pub sweetness_text : Option ℕ → String
sweetness_text none = "sweetness=n/a"
sweetness_text (some n) = if n == 0 then "sweetness=n/a" else "sweetness=" ⊕ show n ⊕ "x sugar"

-- The three lines of a product.
unfoldable pub product_lines : MarvieProduct → String
unfolding tenths_text
product_lines p =
    "- "
    ⊕ p.sku
    ⊕ " | "
    ⊕ p.name
    ⊕ " | shortName="
    ⊕ p.short_name
    ⊕ "\n  category="
    ⊕ category_text p.category
    ⊕ "; priceJPY="
    ⊕ show p.price_jpy
    ⊕ "; calories="
    ⊕ tenths_text p.calories
    ⊕ "kcal/"
    ⊕ p.serving_label
    ⊕ "; "
    ⊕ sweetness_text p.sweetness_ratio_to_sugar
    ⊕ "\n  ingredients="
    ⊕ join ", " p.ingredients
    ⊕ "; usage="
    ⊕ p.short_pitch

-- `MARVIE_CATALOG_FOR_LLM`
unfoldable pub catalog_for_llm : String
unfolding product_lines
catalog_for_llm = join "\n" (map product_lines marvie_products)

abbrev pub rules : List String
rules =
    "You are HABA AI Advisor — a polite, data-grounded assistant for HABA's MARVIE Medical Foods line."
    ∷ "Always answer in the user's language (Simplified Chinese unless prompted otherwise)."
    ∷ "You may recommend ONLY the catalog SKUs listed below. Never invent product names, ingredients, prices, stock, disease claims, or medical efficacy."
    ∷ "" ∷ "IMPORTANT — product card rendering:"
    ∷ "When recommending a product, you MUST write its full SKU code (e.g., MARVIE-LQ-200) somewhere in that recommendation. The UI parses these SKU codes from your reply and renders an in-line product card with price and an 'add to cart' button. If you mention a product by name but omit its SKU code, the user sees NO card and cannot buy it. Always include the SKU."
    ∷ ""
    ∷ "Each recommendation must cite at least 2 catalog facts from: calorie count, sweetness ratio, suitable usage scene, ingredient, or category."
    ∷ "Do not diagnose, treat, or promise blood-sugar outcomes. For medical decisions, suggest consulting a clinician or dietitian."
    ∷ "Keep the answer short — at most 4 short paragraphs or one bullet list. Be conversational, not a sales pitch."
    ∷ "If the request is outside HABA's low-cal sweetener/jam/candy/cooking-aid range, say so politely instead of inventing products."
    ∷ "" ∷ "Allowed MARVIE catalog:" ∷ []

-- `HABA_SYSTEM_PROMPT`
unfoldable pub haba_system_prompt : String
unfolding catalog_for_llm
haba_system_prompt = join "\n" (rules ++ catalog_for_llm ∷ [])
