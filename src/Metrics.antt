-- ===== src/Metrics.antt =====
-- packages/metrics/src/index.js: counters, gauges and histograms, and the text that they are rendered
-- as. Values are naturals, and what a histogram observes is counted in whole units.
pub mod Totals
use xrpl_credit_orchestrator.Prelude.{
  ℕ, ◌+◌, String, List, [], ◌∷◌, ◌++◌, ◌+++◌, Option, none, some, join, lookup, insert, or_else,
  map,
}
use xrpl_credit_orchestrator.Json.Print.{decimal}

abbrev pub Labels : Type 0
Labels = List (String × String)

abbrev pub label_text : String × String → String
label_text (k, v) = k +++ "=\"" +++ v +++ "\""

-- `labelKey(labels)`
unfoldable pub label_key : Labels → String
label_key [] = ""
label_key (l ∷ ls) = "{" +++ join "," (map label_text (l ∷ ls)) +++ "}"

-- A counter and a gauge: a number under each key of labels.
pub record Series : Type 0 where
  pub name : String
  pub help : String
  pub values : List (String × ℕ)

-- `inc(labels, n)`
unfoldable pub inc : Labels → ℕ → Series → Series
inc labels n c = record c {
  values = insert (label_key labels) (or_else (lookup (label_key labels) c.values) 0 + n) c.values;
}

-- `set(labels, value)`
unfoldable pub set : Labels → ℕ → Series → Series
set labels value g = record g { values = insert (label_key labels) value g.values }

pub record Observation : Type 0 where
  pub labels : Labels
  pub value : ℕ

pub record Histogram : Type 0 where
  pub name : String
  pub help : String
  pub observations : List Observation

unfoldable pub observe : Labels → ℕ → Histogram → Histogram
observe labels value h = record h {
  observations = h.observations ++ (record { labels = labels; value = value }) ∷ [];
}

pub record Group : Type 0 where
  pub sum : ℕ
  pub count : ℕ

abbrev pub no_group : Group
no_group = record { sum = 0; count = 0 }

abbrev pub grown : ℕ → Group → Group
grown value g = record { sum = g.sum + value; count = g.count + 1 }

-- The loop that groups the observations by their keys.
unfoldable pub group_observations : List (String × Group) → List Observation → List (String × Group)
group_observations groups [] = groups
group_observations groups (o ∷ os) =
    let key = label_key o.labels in
    group_observations (insert key (grown o.value (or_else (lookup key groups) no_group)) groups) os

abbrev head_lines : String → String → String → List String
head_lines name help kind =
    ("# HELP " +++ name +++ " " +++ help) ∷ ("# TYPE " +++ name +++ " " +++ kind) ∷ []

abbrev value_line : String → String × ℕ → String
value_line name (key, n) = name +++ key +++ " " +++ decimal n

abbrev group_lines : String → List (String × Group) → List String
group_lines name [] = []
group_lines name ((key, g) ∷ groups) =
    (name +++ "_sum" +++ key +++ " " +++ decimal g.sum)
    ∷ (name +++ "_count" +++ key +++ " " +++ decimal g.count)
    ∷ group_lines name groups

pub data Metric : Type 0 where
  counter gauge : Series → Metric
  histogram : Histogram → Metric

-- `toPrometheus()` of each class
unfoldable pub to_prometheus : Metric → String
to_prometheus (counter c) =
    join "\n" (head_lines c.name c.help "counter" ++ map (value_line c.name) c.values)
to_prometheus (gauge g) =
    join "\n" (head_lines g.name g.help "gauge" ++ map (value_line g.name) g.values)
to_prometheus (histogram h) = join "\n" (
    head_lines h.name h.help "histogram"
    ++ group_lines h.name (group_observations [] h.observations))

-- `renderMetrics()` of the registry
unfoldable pub render_metrics : List Metric → String
render_metrics registry = join "\n\n" (map to_prometheus registry) +++ "\n"
