-- ===== src/Tests/Fixtures.antt =====
-- A shop with orders (a fact) and customers (a dimension, with a row-level policy), and a request
-- for the total of the orders by the region of the customer.
use maysemantic.Prelude.{
  Bool, false, refl, Text, true, Option, none, some, [], ◌∷◌, ◌≡◌, all, is_num_char,
}
use maysemantic.Ast.Node.{JoinType}
use maysemantic.Ast.Combiners.{Floats}
use maysemantic.Models.Core.{
  Dimension, DimensionType, Measure, AggregationType, Entity, EntityType, RlsPolicy, Metric,
  JoinDefinition, SemanticModel,
}
use maysemantic.Compiler.Lowering.{ModelMap}
use maysemantic.Compiler.Rls.{UserContext}
use maysemantic.Compiler.Request.{SemanticRequest}

-- Floats that are written with digits, `-` and `.` alone, as their texts.
abbrev pub NumText : Type 0
NumText = (t : Text) × (all is_num_char t ≡ true)

abbrev as_num_text : (s : Text) (b : Bool) → all is_num_char s ≡ b → Option NumText
as_num_text s true e = some (s, e)
as_num_text s false e = none

abbrev pub parse_num_text : Text → Option NumText
parse_num_text s = as_num_text s (all is_num_char s) refl

abbrev pub decimal_floats : Floats
decimal_floats = record {
  Float = NumText;
  parse_f64 = parse_num_text;
  is_finite = λ x. true;
  show_f64 = λ x. x.0;
  shown = λ x h. x.1;
}

abbrev pub shop : Text
shop = b's' ∷ []

abbrev pub orders : Text
orders = b'o' ∷ []

abbrev pub customers : Text
customers = b'c' ∷ []

abbrev pub amount : Text
amount = b'a' ∷ []

abbrev pub region : Text
region = b'r' ∷ []

abbrev pub total : Text
total = b't' ∷ []

abbrev pub placed_at : Text
placed_at = b'd' ∷ []

abbrev pub orders_table : Text
orders_table = b'O' ∷ []

abbrev pub customers_table : Text
customers_table = b'C' ∷ []

abbrev pub key : Text
key = b'k' ∷ []

abbrev pub region_dim : Dimension
region_dim = record {
  name = region;
  description = none;
  dimension_type = DimensionType.string;
  sql = region;
}

abbrev pub placed_at_dim : Dimension
placed_at_dim = record {
  name = placed_at;
  description = none;
  dimension_type = DimensionType.time;
  sql = placed_at;
}

abbrev pub amount_measure : Measure
amount_measure = record {
  name = amount;
  description = none;
  agg = AggregationType.sum;
  sql = amount;
}

abbrev pub region_policy : RlsPolicy
region_policy = record { claim_key = key; dimension = region }

abbrev pub orders_entity : Entity
orders_entity = record {
  name = orders;
  description = none;
  table = orders_table;
  primary_key = key;
  dimensions = placed_at_dim ∷ [];
  measures = amount_measure ∷ [];
  entity_type = EntityType.fact;
  rls_policies = [];
}

abbrev pub customers_entity : Entity
customers_entity = record {
  name = customers;
  description = none;
  table = customers_table;
  primary_key = key;
  dimensions = region_dim ∷ [];
  measures = [];
  entity_type = EntityType.dimension;
  rls_policies = region_policy ∷ [];
}

abbrev pub total_metric : Metric
total_metric = record {
  name = total;
  description = none;
  measure = amount;
  dimensions = region ∷ region ∷ [];
}

abbrev pub customer_join : JoinDefinition
customer_join = record {
  left_entity = orders;
  left_column = customers;
  right_entity = customers;
  right_column = key;
  join_type = JoinType.left;
}

abbrev pub shop_model : SemanticModel
shop_model = record {
  name = shop;
  entities = orders_entity ∷ customers_entity ∷ [];
  metrics = total_metric ∷ [];
  joins = customer_join ∷ [];
}

abbrev pub shop_models : ModelMap
shop_models = (shop, shop_model) ∷ []

abbrev pub user : UserContext
user = record { claims = (key, b'x' ∷ []) ∷ [] }

abbrev pub total_request : SemanticRequest
total_request = record {
  metric_name = total;
  dimensions = [];
  filters = [];
  time_granularity = none;
  limit = none;
}
