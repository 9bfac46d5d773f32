-- ===== src/Tests/Data.antt =====
-- A bucket, an API with three records of one state, and an empty world.
use udhyam_msme_extractor.Prelude.{
  String, Bool, true, false, ◌&&◌, Option, none, some, [], ◌∷◌, ℕ, ◌==◌, is_some, if◌then◌else◌,
}
use udhyam_msme_extractor.Records.{Body, size}
use udhyam_msme_extractor.Dict.{Dict, lookup, insert}
use udhyam_msme_extractor.Exec.{Exec, ok, err}
use udhyam_msme_extractor.Storage.{local}
use udhyam_msme_extractor.Storage.Disk.{Client, Shelf}
use udhyam_msme_extractor.Storage.Object.{ObjectStorage, s3}
use udhyam_msme_extractor.Extractor.Env.{
  Env, World, Settings, Response, Curl, Row, Checkpoint, completed,
}

-- an object: its contents and its checksum metadata
abbrev pub Bucket : Type 0
Bucket = Dict (Body × Option String)

unfoldable pub put : String → Body → Option String → Bool → Exec Bucket String (Unit {0})
unfolding lookup insert
put name body checksum if_absent objects =
    if if_absent && is_some (lookup name objects)
    then (err "precondition failed", objects)
    else (ok tt, insert name (body, checksum) objects)

abbrev head_of : Option (Body × Option String) → Option (Option ℕ × Option String)
head_of none = none
head_of (some (body, checksum)) = some (some (size body), checksum)

abbrev body_of : Option (Body × Option String) → Option Body
body_of none = none
body_of (some (body, checksum)) = some body

abbrev pub bucket : Client Bucket
bucket = record {
  put = put;
  head = λ name objects. head_of (lookup name objects);
  get = λ name objects. body_of (lookup name objects);
}

abbrev pub settings : Settings
settings = record {
  batch_size = 2;
  max_retries = 3;
  retry_backoff_base = 2;
  retry_backoff_max = 30;
  rate_limit_delay = 60;
}

abbrev row : Row
row = []

abbrev pub page : ℕ → Response
page offset = record {
  status = some "ok";
  records = some (if offset == 0 then row ∷ row ∷ [] else row ∷ []);
  total = some 3;
}

abbrev pub answer : ℕ → Curl
answer offset = record {
  returncode = 0;
  stderr = "";
  http_code = some 200;
  body = some (page offset);
}

abbrev pub env : Env Bucket
env = record {
  settings = settings;
  backend = local;
  client = bucket;
  sha256 = λ body. "5e8a";
  curl = λ state offset tick. answer offset;
  shutdown = λ tick. false;
  disk = λ tick. true;
  jitter = λ tick. 1;
}

abbrev pub shelf : Shelf Bucket
shelf = record { files = []; cloud = [] }

abbrev pub world : World Bucket
world = record { tick = 0; calls = 0; waits = []; manifest = []; checkpoints = []; shelf = shelf }

abbrev pub goa : Checkpoint
goa = record {
  run_id = "r1";
  state = "GOA";
  total_records = some 3;
  records_written = 3;
  last_completed_offset = 3;
  status = completed;
  failure_reason = none;
  failure_stage = none;
  failure_detail = "";
  retry_count = 0;
  http_status = none;
}

abbrev pub lake : ObjectStorage
lake = record { provider = s3; bucket_name = "lake"; prefix = "udyam/raw" }
