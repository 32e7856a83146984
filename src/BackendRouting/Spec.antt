-- ===== src/BackendRouting/Spec.antt =====
-- include/turbo_ocr/backend_routing/routing_config.h, and the tables of engines and parsers.
use turbo_ocr.Common.{
  Bool, false, ◌||◌, Option, none, some, List, [], ◌∷◌, if◌then◌else◌, Bytes, codes, bytes_eq,
  is_empty, ℤ, pos,
}
use turbo_ocr.BackendRouting.Table.{Table}

pub data Kind : Type 0 where
  local : Kind
  openai : Kind

pub data Parser : Type 0 where
  otsl : Parser
  latex : Parser
  plain : Parser
  raw : Parser

pub record BackendSpec : Type 0 where
  pub name : Bytes
  pub kind : Kind
  pub engine : Bytes
  pub model_path : Bytes
  pub base_url : Bytes
  pub model : Bytes
  pub prompt : Bytes
  pub parser : Parser
  pub api_key : Bytes
  pub max_tokens : ℤ
  pub timeout_s : ℤ
  pub batch : ℤ
  pub fallback : Option Bytes

-- `BackendSpec{}`
abbrev pub default_spec : BackendSpec
default_spec = record {
  name = [];
  kind = Kind.local;
  engine = [];
  model_path = [];
  base_url = [];
  model = [];
  prompt = [];
  parser = Parser.raw;
  api_key = [];
  max_tokens = pos 1024;
  timeout_s = pos 30;
  batch = pos 8;
  fallback = none;
}

pub record RoutingTable : Type 0 where
  pub backends : Table BackendSpec
  pub routes : Table Bytes

abbrev pub empty_table : RoutingTable
empty_table = record { backends = []; routes = [] }

abbrev pub one_of : List Bytes → Bytes → Bool
one_of [] s = false
one_of (e ∷ es) s = bytes_eq s e || one_of es s

abbrev pub formula_engines : List Bytes
formula_engines =
    codes "formulanet"
    ∷ codes "ppformulanet_s"
    ∷ codes "ppformulanet_plus_m"
    ∷ codes "vlm"
    ∷ codes "auto"
    ∷ []

abbrev pub table_engines : List Bytes
table_engines = codes "slanext" ∷ codes "vlm" ∷ []

unfoldable pub engine_valid_for : Bytes → Bytes → Bool
engine_valid_for modality engine =
    if bytes_eq modality (codes "formula")
    then one_of formula_engines engine
    else one_of table_engines engine

abbrev pub kind_name : Kind → Bytes
kind_name Kind.local = codes "local"
kind_name Kind.openai = codes "openai"

abbrev pub parser_name : Parser → Bytes
parser_name Parser.otsl = codes "otsl"
parser_name Parser.latex = codes "latex"
parser_name Parser.plain = codes "text"
parser_name Parser.raw = codes "raw"

-- `none` is the result false.
unfoldable pub parse_parser : Bytes → Option Parser
parse_parser s =
    if bytes_eq s (codes "otsl")
    then some Parser.otsl
    else if bytes_eq s (codes "latex")
    then some Parser.latex
    else if bytes_eq s (codes "text")
    then some Parser.plain
    else if bytes_eq s (codes "raw") || is_empty s
    then some Parser.raw
    else none
