-- ===== src/StreamQl/Queries.antt =====
-- streamql/ast.go, parser.go and planner.go: what a query says, and its plan.
use stream_flow.Prelude.{
  ℕ, ◌*◌, ◌^◌, ◌%◌, Bool, ◌||◌, Option, none, some, List, [], Bytes, ascii, filter, map, same_bytes,
  if◌then◌else◌,
}
use stream_flow.Text.{trim_space, split_by, to_lower, has_prefix, parse_int64, is_blank}

pub record Query : Type 0 where
  pub select : List Bytes
  pub from_source : Bytes
  pub condition : Bytes
  pub group_by : List Bytes
  pub window_ms : ℕ

pub record Plan : Type 0 where
  pub source : Bytes
  pub projections : List Bytes
  pub filter_text : Bytes
  pub group_by : List Bytes
  pub aggregates : List Bytes
  pub window_ms : ℕ

-- The groups of the expression that a query matches, "" for one that took no part.
pub record QueryMatch : Type 0 where
  pub select_text : Bytes
  pub from_text : Bytes
  pub where_text : Bytes
  pub group_text : Bytes
  pub window_text : Bytes
  pub unit_text : Bytes

pub record AggregateMatch : Type 0 where
  pub func_text : Bytes
  pub field_text : Bytes
  pub alias_text : Bytes

-- The two expressions that the package compiles.
pub record Patterns : Type 0 where
  pub match_query : Bytes → Option QueryMatch
  pub match_aggregate : Bytes → Option AggregateMatch

abbrev pub trimmed_parts : Bytes → List Bytes
trimmed_parts s = map trim_space (split_by b',' s)

-- A number that does not fit is dropped, and `v * 1000` wraps around.
abbrev pub window_of : Bytes → Option ℕ → ℕ
window_of unit none = 0
window_of unit (some v) = if same_bytes unit (ascii "s") then v * 1000 % 2 ^ 64 else v

abbrev pub group_parts : Bytes → List Bytes
group_parts s = if is_blank (trim_space s) then [] else trimmed_parts s

abbrev pub window_part : Bytes → Bytes → ℕ
window_part text unit =
    if is_blank (trim_space text)
    then 0
    else window_of (trim_space unit) (parse_int64 (trim_space text))

abbrev pub query_of : Option QueryMatch → Option Query
query_of none = none
query_of (some m) = some (record {
  select = trimmed_parts m.select_text;
  from_source = m.from_text;
  condition = trim_space m.where_text;
  group_by = group_parts m.group_text;
  window_ms = window_part m.window_text m.unit_text;
})

-- `none` is the error "invalid query".
unfoldable pub parse : Patterns → Bytes → Option Query
parse patterns input = query_of (patterns.match_query (trim_space input))

abbrev pub is_aggregate : Bytes → Bool
is_aggregate s =
    let ls = to_lower s in
    has_prefix ls (ascii "count(") || (has_prefix ls (ascii "sum(") || has_prefix ls (ascii "avg("))

unfoldable pub planify : Query → Plan
planify q = record {
  source = q.from_source;
  projections = q.select;
  filter_text = q.condition;
  group_by = q.group_by;
  aggregates = filter is_aggregate q.select;
  window_ms = q.window_ms;
}
