-- ===== src/Terms/Casts.antt =====
-- The casts that src/expr/cast.go registers, and the format of their SQL.
use go_django_queries.Prelude.{
  ℕ, suc, Option, none, some, List, [], ◌∷◌, ◌++◌, Text, codes, if◌then◌else◌, ◌==◌, length, take,
  drop,
}
use go_django_queries.Compiler.{Sql}
use go_django_queries.RawStatements.{sprintf}
use go_django_queries.Terms.Values.{DriverType, mysql, mariadb, postgres, sqlite, other_driver}

pub data CastType : Type 0 where
  cast_unknown cast_string cast_text cast_int cast_float cast_bool cast_date cast_time : CastType
  cast_bytes cast_decimal cast_json cast_uuid cast_null cast_array : CastType

-- The arguments of a cast are numbers, given by their digits: %d is %s of them.
pub record CastFuncEntry : Type 0 where
  pub arity : ℕ
  pub sql : Text

abbrev cast_entry : ℕ → Text → Option CastFuncEntry
cast_entry n format =
    some (record { arity = n; sql = codes "CAST(%s AS " ++ (format ++ codes ")") })

abbrev mysql_cast : CastType → Option CastFuncEntry
mysql_cast cast_unknown = none
mysql_cast cast_string = cast_entry 1 (codes "CHAR(%s)")
mysql_cast cast_text = cast_entry 0 (codes "TEXT")
mysql_cast cast_int = cast_entry 0 (codes "SIGNED")
mysql_cast cast_float = cast_entry 2 (codes "DECIMAL(%s,%s)")
mysql_cast cast_bool = cast_entry 0 (codes "UNSIGNED")
mysql_cast cast_date = cast_entry 0 (codes "DATE")
mysql_cast cast_time = cast_entry 0 (codes "TIME")
mysql_cast cast_bytes = cast_entry 0 (codes "BINARY")
mysql_cast cast_decimal = cast_entry 2 (codes "DECIMAL(%s,%s)")
mysql_cast cast_json = cast_entry 0 (codes "JSON")
mysql_cast cast_uuid = cast_entry 0 (codes "CHAR(36)")
mysql_cast cast_null = cast_entry 0 (codes "NULL")
mysql_cast cast_array = cast_entry 0 (codes "JSON")

abbrev sqlite_cast : CastType → Option CastFuncEntry
sqlite_cast cast_unknown = none
sqlite_cast cast_string = cast_entry 1 (codes "TEXT")
sqlite_cast cast_text = cast_entry 0 (codes "TEXT")
sqlite_cast cast_int = cast_entry 0 (codes "INTEGER")
sqlite_cast cast_float = cast_entry 2 (codes "REAL")
sqlite_cast cast_bool = cast_entry 0 (codes "INTEGER")
sqlite_cast cast_date = cast_entry 0 (codes "TEXT")
sqlite_cast cast_time = cast_entry 0 (codes "TIMESTAMP")
sqlite_cast cast_bytes = cast_entry 0 (codes "BLOB")
sqlite_cast cast_decimal = cast_entry 2 (codes "REAL")
sqlite_cast cast_json = cast_entry 0 (codes "TEXT")
sqlite_cast cast_uuid = cast_entry 0 (codes "TEXT")
sqlite_cast cast_null = cast_entry 0 (codes "NULL")
sqlite_cast cast_array = cast_entry 0 (codes "TEXT")

abbrev postgres_cast_entry : CastType → Option CastFuncEntry
postgres_cast_entry cast_unknown = none
postgres_cast_entry cast_string = cast_entry 1 (codes "TEXT")
postgres_cast_entry cast_text = cast_entry 0 (codes "TEXT")
postgres_cast_entry cast_int = cast_entry 0 (codes "INTEGER")
postgres_cast_entry cast_float = cast_entry 2 (codes "NUMERIC(%s,%s)")
postgres_cast_entry cast_bool = cast_entry 0 (codes "BOOLEAN")
postgres_cast_entry cast_date = cast_entry 0 (codes "DATE")
postgres_cast_entry cast_time = cast_entry 0 (codes "TIME")
postgres_cast_entry cast_bytes = cast_entry 0 (codes "BYTEA")
postgres_cast_entry cast_decimal = cast_entry 2 (codes "NUMERIC(%s,%s)")
postgres_cast_entry cast_json = cast_entry 0 (codes "JSONB")
postgres_cast_entry cast_uuid = cast_entry 0 (codes "UUID")
postgres_cast_entry cast_null = cast_entry 0 (codes "NULL")
postgres_cast_entry cast_array = cast_entry 0 (codes "JSONB")

-- The entry that (*castExpr).Resolve finds.
unfoldable pub find_cast : DriverType → CastType → Option CastFuncEntry
find_cast mysql typ = mysql_cast typ
find_cast mariadb typ = mysql_cast typ
find_cast postgres typ = postgres_cast_entry typ
find_cast sqlite typ = sqlite_cast typ
find_cast other_driver typ = none

abbrev pub with_arity : ℕ → Option CastFuncEntry → Option CastFuncEntry
with_arity n none = none
with_arity n (some e) = if e.arity == n then some e else none

-- The entry with its test for the number of arguments; none is a panic.
unfoldable pub resolve_entry : DriverType → CastType → List Text → Option CastFuncEntry
unfolding find_cast
resolve_entry d typ args = with_arity (length args) (find_cast d typ)

abbrev pub with_format : {A : Type 0} → Option Text → List A → Sql A
with_format none args = none
with_format (some text) args = some (text, args)

-- The verbs of a format: how many operands Sprintf takes.
unfoldable pub verbs : Text → ℕ
verbs [] = 0
verbs (c ∷ []) = 0
verbs (c ∷ d ∷ s) =
    let onward = verbs (d ∷ s) in
    let beyond = verbs s in if c == b'%' then if d == b's' then suc beyond else beyond else onward

-- The operands behind the last verb, which are numbers: Sprintf writes them with their type.
unfoldable pub typed_operands : List Text → Text
typed_operands [] = []
typed_operands (n ∷ []) = codes "int=" ++ n
typed_operands (n ∷ m ∷ ns) = codes "int=" ++ (n ++ (codes ", " ++ typed_operands (m ∷ ns)))

unfoldable pub extra_text : List Text → Text
unfolding typed_operands
extra_text [] = []
extra_text (n ∷ ns) = codes "%!(EXTRA " ++ (typed_operands (n ∷ ns) ++ codes ")")

abbrev pub and_extra : Option Text → Text → Option Text
and_extra none more = none
and_extra (some text) more = some (text ++ more)

-- fmt.Sprintf of the format of a cast. The formats that are registered have at most as many verbs as
-- operands; none is a format that has more.
unfoldable pub cast_format : Text → List Text → Option Text
unfolding sprintf verbs extra_text
cast_format format operands =
    and_extra (sprintf format (take (verbs format) operands))
      (extra_text (drop (verbs format) operands))

-- (*castExpr).SQL; none is a panic, as of the nil entry.
unfoldable pub cast_sql : {A : Type 0} → Option CastFuncEntry → List Text → Sql A → Sql A
unfolding cast_format
cast_sql none args s = none
cast_sql (some e) args none = none
cast_sql (some e) args (some (text, more)) = with_format (cast_format e.sql (text ∷ args)) more
