-- ===== src/Examples/Answers.antt =====
-- Answers of an AdGuard Home server (crates/sentinel-adguard/src/lib.rs).
use adguard_sentinel.Base.{
  filter_by, contains, ℕ, ◌≤◌, ◌≡◌, refl, arith, String, Option, none, some, true, false, List, [],
  ◌∷◌, map, All, not, ◌||◌, ◌==◌, any, is_some,
}
use mathlib.Core.List.{Perm}
use adguard_sentinel.Base.Int.{ℤ, pos, saturating_add_i64, ◌+ℤ◌}
use adguard_sentinel.Base.Chars.{to_ascii_lowercase, trim_end_by, trim}
use adguard_sentinel.Base.Order.{IsAscending, IsApart}
use adguard_sentinel.Base.Result.{Result, ok, ok_or}
use adguard_sentinel.Config.Types.{PolicyConfig, default_profile}
use adguard_sentinel.Model.Condition.{EvaluationOutcome}
use adguard_sentinel.Model.Observation.{
  FilterObservation, RewriteObservation, OperationalObservation, UpstreamObservation,
}
use adguard_sentinel.Adguard.Types.{FilterResponse, RewriteResponse, StatsResponse}
use adguard_sentinel.Adguard.Lists.{
  normalize_rewrite, normalize_rewrites, by_rewrite, normalize_filters, by_url,
}
use adguard_sentinel.Adguard.Stats.{normalize_stats, ratio}
use adguard_sentinel.Adguard.Observe.{Platform, RequestError, read_body, observe}
use adguard_sentinel.Adguard.Body.{read_body_iff}
use adguard_sentinel.Adguard.Rewrites.{IsNamed, same_key, normalize_rewrites-ok}
use adguard_sentinel.Adguard.Filters.{reported_filter, is_dated, same_url, normalize_filters-ok}
use adguard_sentinel.Adguard.Upstreams.{normalize_upstreams, by_identity}
use adguard_sentinel.Adguard.Entries.{reported}
use adguard_sentinel.Adguard.Averaged.{same_identity, IsCounted}
use adguard_sentinel.Adguard.Counted.{normalize_upstreams-ok}
use adguard_sentinel.Adguard.Shares.{normalize_stats-le}
use adguard_sentinel.Analysis.Report.{first_signature}
use adguard_sentinel.Analysis.Target.{evaluate_target}
use adguard_sentinel.Cli.Observe.{observe_target, paused_until}
use adguard_sentinel.Cli.Answered.{observe_target-api}
use adguard_sentinel.Examples.Analyses.{whole, target, digest, no_address}
use adguard_sentinel.Examples.Configs.{config}

abbrev chunks : List (Result RequestError (List ℕ))
chunks = ok (1 ∷ 2 ∷ []) ∷ ok (3 ∷ []) ∷ []

read_body_iff_example : read_body 3 "GET /control/status" [] chunks ≡ ok (1 ∷ 2 ∷ 3 ∷ [])
read_body_iff_example =
    (read_body_iff 3 "GET /control/status" (omega arith) chunks (1 ∷ 2 ∷ 3 ∷ [])).1
      (refl, omega arith)

abbrev answers : List RewriteResponse
answers =
    record { domain = "B.example."; answer = "10.0.0.2"; enabled = true }
    ∷ record { domain = "a.example"; answer = "10.0.0.1"; enabled = true }
    ∷ []

abbrev rewrites : List RewriteObservation
rewrites = ok_or (normalize_rewrites no_address answers) []

normalize_rewrites-ok_example :
    Perm rewrites (map (normalize_rewrite no_address) answers)
    × All IsNamed rewrites
    × IsApart same_key rewrites
    × IsAscending by_rewrite rewrites
unfolding normalize_rewrites to_ascii_lowercase trim_end_by trim
normalize_rewrites-ok_example = normalize_rewrites-ok no_address answers rewrites refl

abbrev lists : List FilterResponse
lists =
    record {
      id = pos 1;
      enabled = true;
      url = "https://lists.example/a.txt";
      rules_count = 3;
      last_updated = some "2026";
    }
    ∷ []

abbrev parse_seconds : String → Option ℤ
parse_seconds text = some (pos 100)

abbrev policy : PolicyConfig
policy = record {
  protection_enabled = none;
  upstream_mode = none;
  upstream_dns = none;
  filters =
      record { url = "https://lists.example/a.txt"; enabled = true; maximum_age_hours = some 24 }
      ∷ [];
  rewrites = record { enabled = none; required = [] };
}

abbrev filters : List FilterObservation
filters = ok_or (normalize_filters parse_seconds (pos 0) lists (some policy)) []

normalize_filters-ok_example :
    Perm filters (
      map
        (reported_filter parse_seconds)
        (filter_by (λ f. contains ("https://lists.example/a.txt" ∷ []) f.url) lists))
    × All (λ o. is_dated (pos 0) o ≡ true) filters
    × IsApart same_url filters
    × IsAscending by_url filters
unfolding normalize_filters saturating_add_i64 ◌+ℤ◌
normalize_filters-ok_example =
    normalize_filters-ok parse_seconds (pos 0) lists (some policy) filters refl

abbrev statistics : StatsResponse ℕ
statistics = record {
  num_dns_queries = 40;
  num_blocked_filtering = 10;
  avg_processing_time = 0;
  top_upstreams_responses = (("1.1.1.1", 30) ∷ []) ∷ [];
  top_upstreams_avg_time = (("1.1.1.1", 1) ∷ []) ∷ [];
  top_clients = (("10.0.0.5", 25) ∷ []) ∷ [];
}

abbrev blank : OperationalObservation ℕ
blank = record {
  protection_enabled = false;
  queries = 0;
  blocked = 0;
  blocked_ratio = 0;
  average_processing_seconds = 0;
  maximum_upstream_seconds = 0;
  top_client_share = 0;
}

abbrev stats : OperationalObservation ℕ
stats = ok_or (normalize_stats whole true statistics) blank

normalize_stats-le_example :
    (stats.blocked ≤ stats.queries)
    × (stats.blocked_ratio ≡ ratio whole stats.blocked stats.queries)
    × (top : ℕ) × (top ≤ stats.queries)
    × (stats.top_client_share ≡ ratio whole top stats.queries)
unfolding normalize_stats
normalize_stats-le_example = normalize_stats-le whole true statistics stats refl

-- One upstream with an average, one whose summed duration was zero.
abbrev counts : List (List (String × ℕ))
counts = (("9.9.9.9", 4) ∷ []) ∷ (("1.1.1.1", 30) ∷ []) ∷ []

abbrev upstreams : List (UpstreamObservation ℕ)
upstreams = ok_or (normalize_upstreams whole statistics.top_upstreams_avg_time counts) []

normalize_upstreams-ok_example :
    IsAscending by_identity upstreams
    × IsApart same_identity upstreams
    × All (IsCounted false (λ id. reported id counts)) upstreams
    × ((id : String)
        → (false || not (is_some (reported id counts)) || any (λ u. u.identity == id) upstreams)
          ≡ true)
unfolding normalize_upstreams
normalize_upstreams-ok_example =
    normalize_upstreams-ok whole statistics.top_upstreams_avg_time counts upstreams refl

abbrev server : Platform ℕ
server = record {
  Url = String;
  Version = String;
  parse_url = some;
  set_path_and_query = λ place base. place.0;
  send = λ address user. ok (record { status = 200; content_length = none; chunks = [] });
  decode_status =
      λ body. ok (record { protection_enabled = true; running = true; version = "v0.107.78" });
  decode_stats = λ body. ok statistics;
  decode_dns = λ body. ok (record { upstream_dns = "1.1.1.1" ∷ []; upstream_mode = "" });
  decode_filtering = λ body. ok (record { enabled = true; filters = [] });
  decode_rewrites = λ body. ok answers;
  decode_settings = λ body. ok (record { enabled = true });
  parse_version = some;
  show_version = λ v. v;
  version_matches = λ v. true;
  show_requirement = "";
  canonical_ip = no_address;
  parse_seconds = parse_seconds;
}

observe_target-api_example :
    first_signature (
      evaluate_target whole digest no_address target none default_profile
        (observe_target whole server config none none (pos 0) target)
        (pos 0))
    ≡ some ("target:one:api", "api", EvaluationOutcome.clear)
unfolding paused_until observe to_ascii_lowercase
observe_target-api_example =
    observe_target-api whole server digest no_address none default_profile config none none (pos 0)
      target
