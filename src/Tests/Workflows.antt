-- ===== src/Tests/Workflows.antt =====
-- A whole workflow on the two small databases, with an engine that runs the nodes in order.
use db_sanitizer.Base.{refl, true, false, Option, none, some, List, [], ◌∷◌, arith}
use db_sanitizer.Base.Text.{codes}
use db_sanitizer.Errors.{Result, ok, err}
use db_sanitizer.Graph.{RunState, WorkflowContext}
use db_sanitizer.Graph.Nodes.{Services, NodeName, run_node}
use db_sanitizer.Graph.Workflow.{Checkpoint, Invoke, IsEngine, interrupts}
use db_sanitizer.Llm.Models.{ReplacementProvider}
use db_sanitizer.Mapping.Normalization.{str}
use db_sanitizer.Mapping.Registry.{Registry}
use db_sanitizer.Policy.Sections.{SanitizerPolicy, ollama}
use db_sanitizer.Settings.{RuntimeSettings}
use db_sanitizer.Tests.Samples.{unicode, crypto, regex, secret, s2}
use db_sanitizer.Tests.Databases.{groups, source, target}

abbrev pub policy : SanitizerPolicy
policy = record {
  run = record {
    directory = codes "runs";
    allow_target_recreate = true;
    collector_fetch_size = 2;
    verifier_fetch_size = 10;
  };
  connections = record { source_dsn_env = codes "S"; target_dsn_env = codes "T" };
  mapping = record { registry_filename = codes "r"; hmac_key_env = codes "K" };
  llm = record {
    provider = ollama;
    base_url_env = codes "U";
    model = codes "m";
    model_env = none;
    temperature = 70;
    batch_size = 2;
    max_retries = 1;
    timeout_seconds = 60;
  };
  greenmask = record {
    binary = codes "greenmask";
    storage_dirname = codes "dump";
    mapper_timeout_seconds = 60;
    parallel_jobs = 1;
    validate_output = true;
  };
  groups = groups;
  report = record {
    json_filename = codes "r.json";
    markdown_filename = codes "r.md";
    include_synthetic_demo_before_after = false;
    sample_rows = 0;
  };
}

abbrev pub runtime : RuntimeSettings
runtime = record {
  source_dsn = codes "a";
  target_dsn = codes "b";
  hmac_key = secret;
  provider_base_url = some (codes "http://llm");
  provider_api_key = none;
  provider_model = codes "m";
}

abbrev pub context : WorkflowContext
context = record {
  policy = policy;
  policy_sha256 = s2;
  runtime = runtime;
  run_id = codes "run";
  provider_factory = none;
  fake_provider_enabled = false;
}

-- It answers with a value that is too long, and one that is not.
abbrev pub answers : ReplacementProvider
answers n request = ok (codes "far too long" ∷ codes "Ada" ∷ [])

abbrev pub services : Services
services = record {
  unicode = unicode;
  crypto = crypto;
  regex = regex;
  providers = record {
    synthetic = answers;
    open_router = λ url key model timeout temperature. answers;
    local = λ url model timeout temperature. answers;
  };
  duration = λ group_id. 7;
  source = source;
  target = target;
  distinct_values = λ column. str (codes "Max") ∷ [];
  fingerprint = λ snapshot. s2;
  write_config = λ tables. ok (codes "c", codes "m");
  dump_and_restore = λ config mapper. ok (codes "d");
  fromisoformat = λ time. some 1;
  finished_at = 2;
  write_report = λ report. ok tt;
  write_sample = ok tt;
}

unfoldable pub run_from :
    List NodeName
    → List NodeName
    → RunState
    → Registry
    → Option (Result RunState × (Checkpoint × Registry))
run_from i [] s r = some (ok s, (record { next = []; state = s }, r))
run_from i (n ∷ ns) s r = elim (run_node services context n s r) [
  | none ↦ none
  | some (result, t) ↦ elim result [
    | err e ↦ some (err e, (record { next = n ∷ ns; state = s }, t))
    | ok s' ↦ elim (interrupts i n) [
      | true ↦ some (ok s', (record { next = ns; state = s' }, t))
      | false ↦ run_from i ns s' t
    ]
  ]
]

abbrev pub engine : Invoke
engine i c r = run_from i c.next c.state r

pub engine-IsEngine : IsEngine services context engine
unfolding run_from
engine-IsEngine = record {
  ended = λ i s r. refl;
  exhausted = λ i n ns s r p. ground arith;
  raised = λ i n ns s r t e p. ground arith;
  interrupted = λ i n ns s s' r t p q. ground arith;
  continued = λ i n ns s s' r t p q. ground arith;
}
