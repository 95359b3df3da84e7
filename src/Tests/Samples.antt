-- ===== src/Tests/Samples.antt =====
-- Concrete inputs: a toy keyed hash, a plain alphabet, and a small registry.
use db_sanitizer.Base.{
  ℕ, zero, suc, ◌+◌, ◌-◌, ◌%◌, true, false, ◌&&◌, Option, none, some, List, [], ◌∷◌, ◌++◌, length,
  leb, ◌==◌,
}
use db_sanitizer.Base.Text.{Text, codes}
use db_sanitizer.Mapping.Normalization.{Unicode}
use db_sanitizer.Mapping.HmacKey.{Bytes, Crypto}
use db_sanitizer.Mapping.Registry.{Registry}
use db_sanitizer.Mapping.Registry.Assign.{Assignment}
use db_sanitizer.Mapping.Tables.{RunMetadata, MappingRecord, GenerationStats}
use db_sanitizer.Errors.{ok}
use db_sanitizer.Policy.Models.{ColumnRef, ConsistencyGroup, Regex, person_name, human_text}
use db_sanitizer.Llm.Generator.{Setup, Generator}
use db_sanitizer.Mapping.Registry.History.{Call, initialize_run, insert_keys, assign}

abbrev pub zeros : ℕ → Text
zeros zero = []
zeros (suc n) = b'0' ∷ zeros n

-- A digest of 64 characters that ends in the given ones.
abbrev pub hex : Text → Text
hex tail = zeros (64 - length tail) ++ tail

-- The digests of two sources and two replacements.
abbrev pub s1 : Text
s1 = hex (codes "a1")

abbrev pub s2 : Text
s2 = hex (codes "a2")

abbrev pub d1 : Text
d1 = hex (codes "d1")

abbrev pub d2 : Text
d2 = hex (codes "d2")

abbrev pub people : Text
people = codes "people"

abbrev pub first_assignment : Assignment
first_assignment = record { source_hmac = s1; replacement = codes "Ada"; replacement_hmac = d1 }

abbrev pub second_assignment : Assignment
second_assignment = record { source_hmac = s2; replacement = codes "Bob"; replacement_hmac = d2 }

abbrev pub metadata : RunMetadata
metadata = record {
  run_id = codes "run";
  policy_sha256 = codes "p";
  source_schema_sha256 = codes "s";
  llm_provider = codes "ollama";
  llm_model = codes "m";
  hmac_key_fingerprint = codes "f";
  status = codes "created";
}

-- The replacement of the first key, for the second one.
abbrev pub stolen_assignment : Assignment
stolen_assignment = record { source_hmac = s2; replacement = codes "Ada"; replacement_hmac = d2 }

abbrev pub seed_calls : List Call
seed_calls = initialize_run metadata ∷ insert_keys people (s1 ∷ s2 ∷ s1 ∷ []) ∷ []

abbrev pub row : Text → Option Text → Option Text → MappingRecord
row source_hmac replacement replacement_hmac = record {
  group_id = people;
  source_hmac = source_hmac;
  replacement = replacement;
  replacement_hmac = replacement_hmac;
}

abbrev pub counted : ℕ → GenerationStats
counted accepted = record {
  batches = 0;
  accepted_items = accepted;
  rejected_items = 0;
  duration = 0;
}

-- The registry with the two keys, and with a replacement of the first.
abbrev pub seeded : Registry
seeded = record {
  run_meta = metadata ∷ [];
  mappings = row s1 none none ∷ row s2 none none ∷ [];
  generation_stats = some (counted 0);
  work = [];
}

abbrev pub ran : Registry
ran = record {
  run_meta = metadata ∷ [];
  mappings = row s1 (some (codes "Ada")) (some d1) ∷ row s2 none none ∷ [];
  generation_stats = some (counted 1);
  work = [];
}

abbrev pub more_calls : List Call
more_calls =
    assign people (second_assignment ∷ first_assignment ∷ []) true
    ∷ insert_keys people (d1 ∷ [])
    ∷ assign people (second_assignment ∷ []) true
    ∷ []

-- A run: two keys, and a replacement of the first.
abbrev pub run_calls : List Call
run_calls =
    initialize_run metadata
    ∷ insert_keys people (s1 ∷ s2 ∷ s1 ∷ [])
    ∷ assign people (first_assignment ∷ []) true
    ∷ []

-- A secret of 32 bytes.
abbrev pub secret : Bytes
secret = codes "0123456789abcdef0123456789abcdef"

-- A toy keyed hash that writes the last character of the payload, as a digit of a-f.
abbrev pub last_letter : Bytes → Text
last_letter [] = []
last_letter (b ∷ []) = (b'a' + b % 6) ∷ []
last_letter (b ∷ c ∷ s) = last_letter (c ∷ s)

abbrev pub crypto : Crypto
crypto = record {
  sha256_hex = λ b. hex (last_letter b);
  hmac_sha256_hex = λ key b. hex (last_letter b);
}

-- ASCII, without letters that fold.
abbrev pub unicode : Unicode
unicode = record {
  nfkc = λ s. s;
  casefold = λ s. s;
  is_space = λ c. c == b' ';
  is_digit = λ c. leb b'0' c && leb c b'9';
}

abbrev pub regex : Regex
regex = record { compiles = λ p. true; fullmatch = λ p s. true }

abbrev pub name_column : ColumnRef
name_column = record { schema_name = codes "public"; table = codes "users"; column = codes "name" }

abbrev pub name_group : ConsistencyGroup
name_group = record {
  entity_type = person_name;
  locale = codes "en";
  normalization = human_text;
  allow_empty = false;
  generation = record { description = codes "names"; min_length = 2; max_length = 8; regex = none };
  columns = name_column ∷ [];
}

-- A provider that answers with a value that is too long, and two that are not.
abbrev pub setup : Setup
setup = record {
  unicode = unicode;
  crypto = crypto;
  regex = regex;
  provider = λ n r. ok (codes "far too long" ∷ codes "Xavier" ∷ codes "Yann" ∷ []);
  secret = secret;
  batch_size = 2;
  max_retries = 1;
}

abbrev pub generator : Generator
generator = record {
  registry = seeded;
  batches = 0;
  accepted_items = 0;
  rejected_items = 0;
  duration = 0;
  request_sequence = 0;
}

-- The digest of a name that ends in x is that of the row.
abbrev pub mapped_registry : Registry
mapped_registry = record {
  run_meta = metadata ∷ [];
  mappings = row (hex (codes "a")) (some (codes "Ada")) (some (hex (codes "b"))) ∷ [];
  generation_stats = none;
  work = [];
}
