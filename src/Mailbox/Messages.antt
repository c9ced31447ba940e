-- ===== src/Mailbox/Messages.antt =====
-- scripts/forensic/mailbox.py: the messages that the runners write, and the records of run requests.
-- The clock and `uuid4` are arguments.
pub mod Signed
use Prim.Native.Char.{Char, code}
use Prim.Native.String.{[], ◌∷◌ as ◌∷ₛ◌, ◌++◌ as join}
use protocol_robustness_fram.Prelude.{
  ℕ, zero, suc, String, Bool, true, false, ◌&&◌, ◌||◌, not, List, [], ◌∷◌, Option, none, some, leb,
  ◌==◌, if◌then◌else◌,
}
use protocol_robustness_fram.Prelude.Int.{ℤ, negsuc}
use protocol_robustness_fram.Json.{
  Json, null, int, str, arr, obj, Items, nil, Fields, end, field, lookup, get,
}
use protocol_robustness_fram.Json.Equality.{is_truthy, is_null}
use protocol_robustness_fram.Json.Dict.{put, update}
use protocol_robustness_fram.Signatures.{Libraries, hash_exclude_keys}
use protocol_robustness_fram.Mailbox.Store.{Files, write_text, self_hash, prefix}

abbrev pub message_schema_version : String
message_schema_version = "runner-message.v1"

abbrev pub unhashed_message : String → String → String → Fields → Fields
unhashed_message now type runner_id extra =
    update
      (field "runner-message/schema-version" (str message_schema_version) (
        field "runner-message/type" (str type) (
          field "runner-message/timestamp" (str now) (
            field "runner-message/hash" null (
              field "runner-message/runner-id" (str runner_id)
                (field "runner-message/signature" null end))))))
      extra

unfoldable pub make_message : Libraries → String → String → String → Fields → Fields
unfolding self_hash
make_message lib now type runner_id extra =
    let msg = unhashed_message now type runner_id extra in
    put "runner-message/hash" (str (self_hash lib hash_exclude_keys msg)) msg

-- `p.replace("/", "-")`
abbrev pub dash : Char → Char
dash c = if code c == 47 then "-" else c

unfoldable pub replace_slash : String → String
replace_slash [] = ""
replace_slash (c ∷ₛ s) = dash c ∷ₛ replace_slash s

unfoldable pub safe_filename : List String → String
unfolding replace_slash
safe_filename [] = ""
safe_filename (p ∷ ps) = elim ps [
  | [] ↦ replace_slash p
  | q ∷ qs ↦ join (replace_slash p) (join "-" (safe_filename ps))
]

-- The text that `json.dumps(msg, indent=2, sort_keys=True)` gives is written below the mailbox.
unfoldable pub write_message : Libraries → String → String → String → Fields → Files → Files
unfolding write_text
write_message lib root rel_dir filename msg files =
    write_text (join root (join "/" (join rel_dir (join "/" filename)))) (lib.dumps msg) files

abbrev pub hash_text : Fields → String
hash_text msg = elim (get "runner-message/hash" msg) [ str h ↦ h | _ ↦ "" ]

-- `f"{_safe_filename([runner_id, h[:16]])}.json"`
unfoldable pub message_filename : String → Fields → String
unfolding safe_filename
message_filename runner_id msg =
    join (safe_filename (runner_id ∷ prefix 16 (hash_text msg) ∷ [])) ".json"

abbrev pub run_dir : String → String → String
run_dir run_request_hash kind = join "runs/" (join run_request_hash (join "/" kind))

-- `if value: extra[key] = value`
unfoldable pub put_if : Bool → String → Json → Fields → Fields
put_if present k v fs = if present then put k v fs else fs

unfoldable pub write_runner_announcement :
    Libraries → String → String → String → Items → Json → Files → Fields × Files
unfolding make_message write_message put_if
write_runner_announcement lib now root runner_id capabilities note files =
    let extra =
      put_if (is_truthy note) "runner-message/note" note
        (field "runner-message/capabilities" (arr capabilities) end) in
    let msg = make_message lib now "announcement" runner_id extra in
    (msg, write_message lib root (join "runners/" runner_id) "runner.json" msg files)

unfoldable pub write_commitment :
    Libraries → String → String → String → String → Fields → Files → Fields × Files
unfolding make_message write_message message_filename
write_commitment lib now root run_request_hash runner_id extra files =
    let msg =
      make_message lib now "commitment" runner_id
        (update (field "runner-message/run-request-hash" (str run_request_hash) end) extra) in
    (
      msg,
      write_message lib root (run_dir run_request_hash "commitments")
          (message_filename runner_id msg) msg files,
    )

-- The arguments of `write_result_submission` after the runner.
pub record RunResult : Type 0 where
  pub summary : Fields
  pub exit_code : ℤ
  pub status : String
  pub bundle_path : Json
  pub elapsed_ms : Json
  pub volatile : Json
  pub failures : Json
  pub artifacts : Json

unfoldable pub submission_fields : String → RunResult → Fields
unfolding put_if
submission_fields run_request_hash r =
    let always = field "runner-message/run-request-hash" (str run_request_hash) (
      field "runner-message/summary" (obj r.summary) (
        field "runner-message/status" (str r.status)
          (field "runner-message/exit-code" (int r.exit_code) end))) in
    let timed =
      put_if (not (is_null r.elapsed_ms)) "runner-message/elapsed-ms" r.elapsed_ms always in
    let located =
      put_if (is_truthy r.bundle_path) "runner-message/bundle-path" r.bundle_path timed in
    let varying = put_if (is_truthy r.volatile) "runner-message/volatile" r.volatile located in
    let failed = put_if (is_truthy r.failures) "runner-message/failures" r.failures varying in
    put_if (is_truthy r.artifacts) "runner-message/artifacts" r.artifacts failed

unfoldable pub write_result_submission :
    Libraries → String → String → String → String → RunResult → Files → Fields × Files
unfolding make_message write_message message_filename submission_fields
write_result_submission lib now root run_request_hash runner_id r files =
    let msg =
      make_message lib now "result-submission" runner_id (submission_fields run_request_hash r) in
    (
      msg,
      write_message lib root (run_dir run_request_hash "submissions")
          (message_filename runner_id msg) msg files,
    )

unfoldable pub write_error_report :
    Libraries → String → String → String → String → String → String → ℤ → Files → Fields × Files
unfolding make_message write_message message_filename
write_error_report lib now root run_request_hash runner_id kind message exit_code files =
    let msg = make_message lib now "error-report" runner_id (
      field "runner-message/run-request-hash" (str run_request_hash) (
        field "runner-message/error-kind" (str kind) (
          field "runner-message/error-message" (str message)
            (field "runner-message/exit-code" (int exit_code) end)))) in
    (
      msg,
      write_message lib root (run_dir run_request_hash "errors") (message_filename runner_id msg)
          msg files,
    )

abbrev pub is_hex_digit : ℕ → Bool
is_hex_digit c = (leb 48 c && leb c 57) || (leb 97 c && leb c 102)

abbrev pub all_hex : String → Bool
all_hex [] = true
all_hex (c ∷ₛ s) = is_hex_digit (code c) && all_hex s

abbrev pub text_length : String → ℕ
text_length [] = 0
text_length (c ∷ₛ s) = suc (text_length s)

-- `_run_request_hash`; `sha256_hex` is applied to the UTF-8 bytes of the text.
unfoldable pub run_request_hash : Libraries → String → String
run_request_hash lib run_id =
    if text_length run_id == 64 && all_hex run_id then run_id else lib.sha256_hex run_id

-- `run_id or str(uuid.uuid4())`
abbrev pub chosen_run_id : Option String → String → String
chosen_run_id none uuid = uuid
chosen_run_id (some s) uuid = if is_truthy (str s) then s else uuid

unfoldable pub write_run_request :
    Libraries → String → String → String → Json → Option String → Files → String × Files
unfolding run_request_hash write_text
write_run_request lib now uuid root request_data run_id files =
    let rid = chosen_run_id run_id uuid in
    let req_hash = run_request_hash lib rid in
    (
      req_hash,
      write_text (join root (join "/runs/" (join req_hash "/request.json")))
          (lib.dumps (
            field "run-request/schema-version" (str "run-request.v1") (
              field "run-request/hash" (str req_hash) (
                field "run-request/run-id" (str rid) (
                  field "run-request/timestamp" (str now)
                    (field "run-request/data" request_data end))))))
          files,
    )

-- `msg.get(k, default)`
unfoldable pub get_or : String → Json → Fields → Json
get_or k default msg = elim (lookup k msg) [ none ↦ default | some v ↦ v ]

-- The loop at the end of `deduplicate_submissions`, which builds the format of the consensus.
unfoldable pub normalize : Fields → Fields
unfolding get_or
normalize msg = field "runner-message/schema-version" (str message_schema_version) (
    field "runner-message/type" (str "result-submission") (
      field "runner-message/timestamp" (get "runner-message/timestamp" msg) (
        field "runner-message/runner-id" (get_or "runner-message/runner-id" (str "?") msg) (
          field "runner-message/run-id" (get_or "runner-message/run-request-hash" (str "?") msg) (
            field "runner-message/status" (get_or "runner-message/status" (str "fail") msg) (
              field "runner-message/exit-code"
                (get_or "runner-message/exit-code" (int (negsuc 0)) msg)
                (field "runner-message/summary" (get_or "runner-message/summary" (obj end) msg) (
                  field "runner-message/bundle-path" (get "runner-message/bundle-path" msg)
                    end))))))))
