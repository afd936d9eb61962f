-- ===== src/Runs/Routing.antt =====
-- `requires_database_context` of backend/src/application/message_routing.py. `lower` is `str.lower`.
use oper_mind.Base.{String, Bool, ◌||◌, List, [], ◌∷◌, any, contains, if◌then◌else◌}

abbrev pub mentions : String → List String → Bool
mentions s keywords = any (λ k. contains k s) keywords

abbrev database_keywords : List String
database_keywords =
    "select" ∷ "sql" ∷ "explain" ∷ "索引" ∷ "慢查询" ∷ "数据库" ∷ "postgres" ∷ "连接池" ∷ "锁等待" ∷ "数据库锁"
    ∷ "pg_stat" ∷ "schema" ∷ []

abbrev log_keywords : List String
log_keywords = "日志" ∷ "log" ∷ "错误" ∷ "异常" ∷ "报错" ∷ "超时" ∷ []

abbrev weak_keywords : List String
weak_keywords = "查询" ∷ "表" ∷ []

unfoldable pub requires_database_context : (lower : String → String) → String → Bool
requires_database_context lower query =
    let lowered = lower query in
    if mentions lowered log_keywords
    then mentions lowered database_keywords
    else mentions lowered database_keywords || mentions lowered weak_keywords
