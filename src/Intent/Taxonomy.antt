-- ===== src/Intent/Taxonomy.antt =====
-- The taxonomy of intents (intent/taxonomy.py). Labels and descriptions are texts for a reader, and left
-- out.
use haojie.Common.{Bool, ◌||◌, String, List, [], ◌∷◌, if◌then◌else◌, str_eq, any}

pub record IntentDefinition : Type 0 where
  pub id : String
  pub audiences : List String
  pub keywords_zh : List String
  pub keywords_en : List String

entry : String → List String → List String → List String → IntentDefinition
entry id audiences zh en = record {
  id = id;
  audiences = audiences;
  keywords_zh = zh;
  keywords_en = en;
}

-- `_RAW`
unfoldable pub intent_registry : List IntentDefinition
unfolding entry
intent_registry =
    entry "search_product" ("any" ∷ []) ("搜索" ∷ "找" ∷ "查找" ∷ "有没有" ∷ "有什么" ∷ "推荐一下" ∷ "哪里买" ∷ [])
      ("search" ∷ "find" ∷ "look for" ∷ "show me" ∷ "any " ∷ "where to buy" ∷ [])
    ∷ entry "compare_products" ("any" ∷ []) ("对比" ∷ "比较" ∷ "哪个更好" ∷ "区别" ∷ "差别" ∷ "优劣" ∷ [])
        ("compare" ∷ "vs" ∷ "versus" ∷ "difference" ∷ "which is better" ∷ [])
    ∷ entry "inquire_price" ("any" ∷ []) ("多少钱" ∷ "价格" ∷ "报价" ∷ "折扣" ∷ "优惠" ∷ "促销" ∷ "便宜" ∷ [])
        ("price" ∷ "quote" ∷ "quotation" ∷ "cost" ∷ "how much" ∷ "discount" ∷ "deal" ∷ [])
    ∷ entry "check_stock" ("any" ∷ []) ("库存" ∷ "有货" ∷ "现货" ∷ "到货" ∷ "发货时间" ∷ "交期" ∷ [])
        ("stock" ∷ "in stock" ∷ "available" ∷ "availability" ∷ "lead time" ∷ "eta" ∷ [])
    ∷ entry "product_info" ("any" ∷ []) ("参数" ∷ "规格" ∷ "材质" ∷ "尺寸" ∷ "详情" ∷ "说明" ∷ "认证" ∷ [])
        ("spec" ∷ "specification" ∷ "material" ∷ "dimension" ∷ "details" ∷ "manual" ∷ [])
    ∷ entry "view_reviews" ("b2c" ∷ "b2b" ∷ []) ("评价" ∷ "评论" ∷ "口碑" ∷ "好评" ∷ "差评" ∷ "测评" ∷ [])
        ("review" ∷ "rating" ∷ "testimonial" ∷ "feedback" ∷ [])
    ∷ entry "get_recommendation" ("any" ∷ []) ("推荐" ∷ "建议" ∷ "值得买" ∷ "该买" ∷ "选哪个" ∷ [])
        ("recommend" ∷ "suggest" ∷ "should I buy" ∷ "what to pick" ∷ [])
    ∷ entry "request_quote" ("b2b" ∷ []) ("报价单" ∷ "询价" ∷ "rfq" ∷ "正式报价" ∷ "招标" ∷ [])
        ("rfq" ∷ "rfp" ∷ "request for quote" ∷ "tender" ∷ "bid" ∷ [])
    ∷ entry "bulk_order" ("b2b" ∷ []) ("批量" ∷ "大量" ∷ "批发" ∷ "大单" ∷ "整车" ∷ "整柜" ∷ "moq" ∷ [])
        ("bulk" ∷ "wholesale" ∷ "large order" ∷ "moq" ∷ "container" ∷ "pallet" ∷ [])
    ∷ entry "supplier_info" ("b2b" ∷ []) ("供应商" ∷ "厂家" ∷ "工厂" ∷ "资质" ∷ "认证" ∷ "iso" ∷ "资质证书" ∷ [])
        ("supplier" ∷ "vendor" ∷ "factory" ∷ "iso" ∷ "certification" ∷ "credentials" ∷ [])
    ∷ entry "negotiate_terms" ("b2b" ∷ []) ("谈价" ∷ "议价" ∷ "降价" ∷ "账期" ∷ "付款方式" ∷ "条款" ∷ "合同" ∷ [])
        ("negotiate" ∷ "net 30" ∷ "net 60" ∷ "payment terms" ∷ "contract" ∷ "incoterms" ∷ [])
    ∷ entry "place_order" ("any" ∷ []) ("下单" ∷ "购买" ∷ "买了" ∷ "要买" ∷ "拍下" ∷ "结账" ∷ "付款" ∷ [])
        ("buy" ∷ "order" ∷ "purchase" ∷ "checkout" ∷ "pay" ∷ [])
    ∷ entry "track_order" ("any" ∷ []) ("订单" ∷ "物流" ∷ "发货" ∷ "快递" ∷ "到哪了" ∷ "运输" ∷ "跟踪" ∷ [])
        ("track" ∷ "tracking" ∷ "shipment" ∷ "delivery status" ∷ "where is my order" ∷ [])
    ∷ entry "cancel_order" ("any" ∷ []) ("取消" ∷ "不要了" ∷ "别发了" ∷ "撤单" ∷ [])
        ("cancel" ∷ "cancellation" ∷ "void my order" ∷ [])
    ∷ entry "return_refund" ("any" ∷ []) ("退货" ∷ "退款" ∷ "换货" ∷ "售后" ∷ "退钱" ∷ [])
        ("return" ∷ "refund" ∷ "exchange" ∷ "rma" ∷ "money back" ∷ [])
    ∷ entry "complaint" ("any" ∷ []) ("投诉" ∷ "差评" ∷ "气死了" ∷ "欺诈" ∷ "骗人" ∷ "维权" ∷ [])
        ("complaint" ∷ "terrible" ∷ "fraud" ∷ "scam" ∷ "dispute" ∷ [])
    ∷ entry "contact_support" ("any" ∷ []) ("客服" ∷ "人工" ∷ "在吗" ∷ "帮忙" ∷ "转接" ∷ [])
        ("support" ∷ "agent" ∷ "human" ∷ "help me" ∷ "talk to someone" ∷ [])
    ∷ entry "greeting" ("any" ∷ []) ("你好" ∷ "在吗" ∷ "早上好" ∷ "晚上好" ∷ "嗨" ∷ [])
        ("hi" ∷ "hello" ∷ "hey" ∷ "good morning" ∷ "good evening" ∷ [])
    ∷ entry "farewell" ("any" ∷ []) ("再见" ∷ "拜拜" ∷ "谢谢了" ∷ "不用了" ∷ [])
        ("bye" ∷ "goodbye" ∷ "thanks, that's all" ∷ "see you" ∷ [])
    ∷ entry "other" ("any" ∷ []) ([]) ([])
    ∷ []

abbrev pub fallback_intent : String
fallback_intent = "other"

unfoldable pub serves : String → IntentDefinition → Bool
serves audience d =
    any (λ a. str_eq a audience) d.audiences || any (λ a. str_eq a "any") d.audiences

unfoldable pub keep : (IntentDefinition → Bool) → List IntentDefinition → List IntentDefinition
keep p [] = []
keep p (d ∷ ds) = let rest = keep p ds in if p d then d ∷ rest else rest

-- The audience is in lower case, and `any` where it was empty.
unfoldable pub intents_for_audience : String → List IntentDefinition
unfolding intent_registry serves keep
intents_for_audience audience =
    if str_eq audience "any" then intent_registry else keep (serves audience) intent_registry
