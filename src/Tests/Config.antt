-- ===== src/Tests/Config.antt =====
-- The theorems about src/config.rs at concrete inputs.
use mcpdial.Base.{
  true, false, Option, none, some, List, [], ◌∷◌, Str, codes, ◌≡◌, refl, ap, subst, ◌∙◌, arith, Map,
  get_key, put_key, remove_key, has_key, any, str_eq, str_eq_refl, str_eq_iff, get_key-put_key,
  get_key-remove_key, if◌then◌else◌, ◌↔◌, ◌⊎◌,
}
use mcpdial.Protocol.Version.{handshake}
use mcpdial.Protocol.Errors.{ok, ◌>>=◌}
use mcpdial.Config.Glob.{turn, go, turns, match_loop, matches_glob}
use mcpdial.Config.Glob.Matching.{Matches, matches_glob_iff, match_loop-returns}
use mcpdial.Config.Expand.{substitute}
use mcpdial.Config.Expand.Parts
use mcpdial.Config.Expand.Parts.{Part, variable, write, fill, IsPart, substitute-write}
use mcpdial.Config.Servers.{ServerConfig, default_config, refuse_denied}
use mcpdial.Config.Servers.Allowed.{IsMatched, refuse_denied-ok_iff}
use mcpdial.Config.Files.{File, rewrite}
use mcpdial.Config.Notes.{
  task_expired, ProbeRecord, default_probe, TaskRecord, Tasks, Probes, save_probes, tasks, tasks_of,
  unexpired, forget_tasks,
}
use mcpdial.Config.Notes.Forgotten.{without, tasks-forget_tasks}
use mcpdial.Config.Notes.Eras.{noted_after, get_key-save_probes}
use mcpdial.Config.Credentials.{Credential, Keychain, in_keychain}
use mcpdial.Config.Store.{Store, credential, server, remove_server, remove_credential}
use mcpdial.Config.Store.Backends.{use_backend}
use mcpdial.Config.Store.Items.{IsKeychain, ok_injective}
use mcpdial.Config.Store.Kept.{credential-use_backend}
use mcpdial.Config.Store.Removed.{remove_server-ok}

matches_glob_iff_example :
    (matches_glob (codes "get_*") (codes "get_x") ≡ true) ↔ Matches (codes "get_*") (codes "get_x")
matches_glob_iff_example = matches_glob_iff (codes "get_*") (codes "get_x")

backtracked : matches_glob (codes "*ab") (codes "aab") ≡ true
unfolding matches_glob turn
backtracked = refl

unmatched : matches_glob (codes "a?") (codes "a") ≡ false
unfolding matches_glob turn
unmatched = refl

match_loop-returns_example :
    match_loop (go (codes "*ab") (codes "aab") none) 35
    ≡ some (matches_glob (codes "*ab") (codes "aab"))
unfolding turns
match_loop-returns_example = match_loop-returns (codes "*ab") (codes "aab") 35 (omega arith)

abbrev environment : Str → Option Str
environment name = if str_eq name (codes "TOKEN") then some (codes "abc") else none

abbrev parts : List Part
parts =
    Parts.plain (codes "Bearer $")
    ∷ variable (codes "TOKEN") none
    ∷ variable (codes "PORT") (some (codes "80"))
    ∷ []

substitute-write_example : substitute environment (write parts) ≡ fill environment parts
unfolding str_eq
substitute-write_example = substitute-write environment parts (
  tt,
  (
    (
      λ e. cc e,
      (refl, (refl, (refl, (refl, (refl, tt))))),
      (refl, (refl, (refl, (refl, (refl, tt))))),
    ),
    (
      (
        λ e. cc e,
        (refl, (refl, (refl, (refl, tt)))),
        (refl, (refl, (refl, (refl, tt)))),
        (refl, (refl, tt)),
      ),
      tt,
    ),
  ),
)

abbrev fenced : ServerConfig
fenced = record default_config { deny = codes "rm_*" ∷ [] }

refuse_denied-ok_iff_example : (refuse_denied fenced (codes "s") (codes "ls") ≡ ok tt) ↔ (
    ¬ IsMatched fenced.deny (codes "ls")
    × ((fenced.allow ≡ []) ⊎ IsMatched fenced.allow (codes "ls")))
refuse_denied-ok_iff_example = refuse_denied-ok_iff fenced (codes "s") (codes "ls")

abbrev noted_task : TaskRecord
noted_task = record { tool = codes "build"; started_at = 100; ttl = 60 }

abbrev pub two_tasks : Tasks
two_tasks = (codes "s", (codes "t1", noted_task) ∷ (codes "t2", noted_task) ∷ []) ∷ []

abbrev pub task_file : File Tasks
task_file = record { content = ok two_tasks; refused = none }

tasks-forget_tasks_example :
    tasks 120 (codes "s") ((forget_tasks 120 (codes "s") (codes "t1" ∷ []) task_file).0)
    ≡ ok (
        if str_eq (codes "s") (codes "s")
        then without (codes "t1" ∷ []) (unexpired 120 (tasks_of (codes "s") two_tasks))
        else unexpired 120 (tasks_of (codes "s") two_tasks))
tasks-forget_tasks_example =
    tasks-forget_tasks 120 (codes "s") (codes "s") (codes "t1" ∷ []) two_tasks task_file refl refl

one_left :
    tasks 120 (codes "s") ((forget_tasks 120 (codes "s") (codes "t1" ∷ []) task_file).0)
    ≡ ok ((codes "t2", noted_task) ∷ [])
unfolding tasks forget_tasks get_key put_key remove_key str_eq rewrite task_expired
one_left = refl

abbrev era_noted : ProbeRecord
era_noted = record default_probe {
  era = some (record { era = handshake; key = 7; checked_at = 50 });
}

abbrev taken_now : Map ProbeRecord
taken_now = (codes "s", record default_probe { checked_at = 90 }) ∷ []

abbrev noted_before : Map ProbeRecord
noted_before = (codes "s", era_noted) ∷ []

abbrev saved_now : Map ServerConfig
saved_now = (codes "s", default_config) ∷ []

abbrev probe_file : Probes
probe_file = record { content = ok noted_before; refused = none }

get_key-save_probes_example :
    ((save_probes (ok saved_now) taken_now probe_file).0.content >>= λ m.
    ok (get_key (codes "s") m))
    ≡ ok (
        if has_key (codes "s") saved_now
        then noted_after (get_key (codes "s") taken_now) (get_key (codes "s") noted_before)
        else none)
unfolding get_key
get_key-save_probes_example =
    get_key-save_probes (codes "s") saved_now taken_now noted_before probe_file (refl, tt) refl refl

-- A keychain that is a map, and that never refuses.
abbrev keys : Map Credential → List Str
keys [] = []
keys ((k, c) ∷ m) = k ∷ keys m

abbrev map_keychain : Keychain (Map Credential)
map_keychain = record {
  item = λ k n. ok (get_key n k);
  set = λ k n c. (put_key n c k, ok tt);
  delete = λ k n. (remove_key n k, ok (has_key n k));
  accounts = λ k. ok (keys k);
  check = λ k. ok tt;
}

among_keys :
    (n : Str) (c : Credential) (m : Map Credential)
    → get_key n m ≡ some c
    → any (str_eq n) (keys m) ≡ true
unfolding get_key
among_keys n c [] h = absurd (cc h)
among_keys n c ((k, d) ∷ m) h = ground (arith, among_keys n c m, str_eq_iff n k, str_eq_iff k n)

map_keychain-IsKeychain : IsKeychain map_keychain
map_keychain-IsKeychain = record {
  set_item = λ k n c e.
      ap ok (get_key-put_key n n c k ∙ ap (λ b. if b then some c else get_key n k) (str_eq_refl n));
  set_other =
      λ k n m c e. ap ok (get_key-put_key n m c k ∙ ap (λ b. if b then some c else get_key m k) e);
  listed = λ k n c names e l.
      subst (λ ns. any (str_eq n) ns ≡ true) (ok_injective l) (among_keys n c k (ok_injective e));
  deleted_item = λ k n b e.
      ap ok (get_key-remove_key n n k ∙ ap (λ b. if b then none else get_key n k) (str_eq_refl n));
}

abbrev pub bearer : Credential
bearer = record {
  access_token = some (codes "abc");
  refresh_token = none;
  expires_at = none;
  scope = none;
  token_endpoint = none;
  client_id = none;
  registration = none;
  issuer = none;
  client_secret = none;
  token_endpoint_auth_method = none;
  redirect_port = none;
  redirect_host = none;
  resource = none;
  source = none;
}

abbrev one_credential : Map Credential
one_credential = (codes "s", bearer) ∷ []

abbrev store_ : Store (Map Credential)
store_ = record {
  servers = record { content = ok saved_now; refused = none };
  credentials = record { content = ok one_credential; refused = none };
  config_file = record { content = ok none; refused = none };
  keychain = [];
  removal = none;
  forced = none;
}

credential-use_backend_example :
    credential map_keychain (codes "s") ((use_backend map_keychain in_keychain store_).0)
    ≡ ok (some bearer)
unfolding credential get_key str_eq
credential-use_backend_example =
    credential-use_backend map_keychain map_keychain-IsKeychain (codes "s") bearer in_keychain
      store_ one_credential refl (refl, tt) refl

remove_server-ok_example :
    (server (codes "s") ((remove_server map_keychain (codes "s") store_).0) ≡ ok none)
    × (credential map_keychain (codes "s") ((remove_server map_keychain (codes "s") store_).0)
        ≡ ok none)
unfolding remove_server get_key rewrite str_eq remove_credential
remove_server-ok_example =
    remove_server-ok map_keychain map_keychain-IsKeychain (codes "s") store_ refl
