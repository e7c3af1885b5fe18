-- ===== src/Mutations/Store.antt =====
-- core/src/cauco_core/mutations/store.py: `MutationPreviewStore`. Each method is a `Method` of the
-- store; the lock makes it one step.
use Prim.Native.String.{compare}
use text.Mathlib.Text.{is_lt}
use cauco.Base.{
  ℕ, suc, ◌+◌, ◌*◌, String, str_append, Bool, true, false, not, ◌&&◌, ◌||◌, Option, none, some,
  List, [], ◌∷◌, ◌==◌, nat_eq, string_eq, pair_eq, ltb, leb, nat_beq, keep, Result, ok, raised,
  Method, return, raise, ask, need, update, ensure, ◌>>=◌, ◌>>◌, if◌then◌else◌,
}
use cauco.Base.Dict.{Dict, get, put, remove, size, values, is_some}
use cauco.Base.Sort.{sorted}
use cauco.Base.Environment.{Environment}
use cauco.Tools.Value.{Value}
use cauco.Mutations.Models.{
  MutationPreviewStatus, preview_status_value, MutationPreview, preview_rejection, MutationError,
  not_found, conflict, capacity, value_error, key_error,
}

pub record MutationPreviewStore : Type 0 where
  pub ttl : ℕ
  pub max_records : ℕ
  pub records : Dict String MutationPreview
  pub active : Dict (String × ℕ) String
  pub calls : ℕ  -- how often the environment was asked

-- `__init__`: the seconds become microseconds.
unfoldable pub new : ℕ → ℕ → Result MutationError MutationPreviewStore
new ttl_seconds max_records =
    if leb 60 ttl_seconds && leb ttl_seconds 3600 && leb 1 max_records && leb max_records 10000
    then ok (record {
      ttl = ttl_seconds * 1000000;
      max_records = max_records;
      records = [];
      active = [];
      calls = 0;
    })
    else raised (value_error "Mutation preview limits are invalid.")

abbrev pub StoreMethod : Type 0 → Type 0
StoreMethod A = Method MutationError MutationPreviewStore A

-- The keyword arguments of `create`.
pub record PreviewFields : Type 0 where
  pub execution_id : String
  pub review_id : String
  pub step_index : ℕ
  pub tool_id : String
  pub operation_id : String
  pub target : Option String
  pub normalized_arguments : Value
  pub before_state : Value
  pub proposed_after_state : Value
  pub diff_preview : String
  pub preview_digest : String
  pub confirmation_phrase : String
  pub created_at : Option ℕ
  pub expires_at : Option ℕ

abbrev pub key_of : MutationPreview → String × ℕ
key_of p = (p.execution_id, p.step_index)

abbrev pub is_pending : MutationPreviewStatus → Bool
is_pending MutationPreviewStatus.pending_confirmation = true
is_pending _ = false

abbrev pub is_confirmed : MutationPreviewStatus → Bool
is_confirmed MutationPreviewStatus.confirmed = true
is_confirmed _ = false

abbrev pub is_expired : MutationPreviewStatus → Bool
is_expired MutationPreviewStatus.expired = true
is_expired _ = false

-- `status in {EXPIRED, CANCELLED, CONSUMED}`
abbrev pub is_terminal : MutationPreviewStatus → Bool
is_terminal MutationPreviewStatus.expired = true
is_terminal MutationPreviewStatus.cancelled = true
is_terminal MutationPreviewStatus.consumed = true
is_terminal _ = false

abbrev pub with_status : MutationPreviewStatus → MutationPreview → MutationPreview
with_status status p = record p { status = status }

-- `self._records[preview_id] = preview`
unfoldable pub save : String → MutationPreview → StoreMethod (Unit {0})
save id p = update (λ s. record s { records = put s.records id p })

-- `self._active.pop(key, None)`
unfoldable pub release : String × ℕ → StoreMethod (Unit {0})
release key = update (λ s. record s { active = remove s.active key })

-- `self._records[preview_id]`, where a missing key raises the error given.
unfoldable pub find : String → MutationError → StoreMethod MutationPreview
find id error s = need (get s.records id) error s

-- The sort key `(item.created_at, item.preview_id)`.
abbrev pub created_before : MutationPreview → MutationPreview → Bool
created_before a b =
    ltb a.created_at b.created_at
    || (nat_beq a.created_at b.created_at && is_lt (compare a.preview_id b.preview_id))

-- `self._records.pop(preview_id)`
unfoldable pub delete : String → StoreMethod (Unit {0})
delete id s =
    if is_some (get s.records id)
    then (ok tt, record s { records = remove s.records id })
    else (raised key_error, s)

unfoldable pub drop_first : List MutationPreview → StoreMethod (Unit {0})
unfolding delete
drop_first [] = raise (capacity "Mutation preview capacity is full.")
drop_first (p ∷ ps) = delete p.preview_id

-- `_make_room`
unfoldable pub make_room : StoreMethod (Unit {0})
unfolding drop_first
make_room s =
    if ltb (size s.records) s.max_records
    then (ok tt, s)
    else drop_first (sorted created_before (keep (λ p. is_terminal p.status) (values s.records))) s

-- `given or otherwise`
abbrev pub or_else {ℓ} : {A : Type ℓ} → Option A → A → A
or_else none b = b
or_else (some a) b = a

-- The preview that `create` builds.
unfoldable pub created : String → PreviewFields → ℕ → ℕ → MutationPreview
created id f now expires_at = record {
  preview_id = id;
  execution_id = f.execution_id;
  review_id = f.review_id;
  step_index = f.step_index;
  tool_id = f.tool_id;
  operation_id = f.operation_id;
  target = f.target;
  normalized_arguments = f.normalized_arguments;
  before_state = f.before_state;
  proposed_after_state = f.proposed_after_state;
  diff_preview = f.diff_preview;
  preview_digest = f.preview_digest;
  confirmation_phrase = f.confirmation_phrase;
  created_at = now;
  expires_at = expires_at;
  status = MutationPreviewStatus.pending_confirmation;
}

-- `__post_init__` raises `ValueError`.
unfoldable pub accepted : Option String → MutationPreview → StoreMethod MutationPreview
accepted none p = return p
accepted (some message) p = raise (value_error message)

-- The body of `_expire`.
unfoldable pub lapse : MutationPreview → StoreMethod MutationPreview
unfolding save release
lapse p = do
  save p.preview_id (with_status MutationPreviewStatus.expired p)
  release (key_of p)
  return (with_status MutationPreviewStatus.expired p)

-- `if self.clock() >= preview.expires_at`
unfoldable pub if_due : MutationPreview → ℕ → StoreMethod MutationPreview
unfolding lapse
if_due p now = if leb p.expires_at now then lapse p else return p

-- `claim`, once the preview is found.
unfoldable pub claim_checked : String → String → ℕ → MutationPreview → StoreMethod MutationPreview
unfolding save
claim_checked id execution_id step_index p = do
  ensure (p.execution_id == execution_id && p.step_index == step_index)
      (conflict "Mutation preview does not belong to this step.")
  ensure (not (is_expired p.status)) (conflict "Mutation preview has expired.")
  ensure (is_pending p.status) (
      conflict (
        str_append "Mutation preview is already " (str_append (preview_status_value p.status) ".")))
  save id (with_status MutationPreviewStatus.confirmed p)
  return (with_status MutationPreviewStatus.confirmed p)

module _ (env : Environment) where
  -- `self.clock()`
  unfoldable pub clock : StoreMethod ℕ
  clock s = (ok (env.clock s.calls), record s { calls = suc s.calls })

  -- `secrets.token_urlsafe(18)`
  unfoldable pub token : StoreMethod String
  token s = (ok (env.token s.calls), record s { calls = suc s.calls })

  -- `_expire`
  unfoldable pub expire : MutationPreview → StoreMethod MutationPreview
  unfolding clock if_due
  expire p = if is_pending p.status then clock >>= if_due p else return p

  -- `get`: both the lookup and nothing else raises `KeyError`.
  unfoldable pub get_preview : String → StoreMethod MutationPreview
  unfolding find
  get_preview id = do p ← find id (not_found "Mutation preview not found."); expire p

  -- `active`
  unfoldable pub active_preview : String → ℕ → StoreMethod MutationPreview
  unfolding find
  active_preview execution_id step_index = do
    entry ← ask (λ s. get s.active (execution_id, step_index))
    id ← need entry (not_found "Mutation preview not found.")
    p ← find id key_error
    expire p

  -- `claim`
  unfoldable pub claim : String → String → ℕ → StoreMethod MutationPreview
  unfolding get_preview claim_checked
  claim id execution_id step_index = get_preview id >>= claim_checked id execution_id step_index

  -- `consume`
  unfoldable pub consume : String → StoreMethod MutationPreview
  unfolding get_preview save release
  consume id = do
    p ← get_preview id
    ensure (is_confirmed p.status) (conflict "Mutation preview was not claimed.")
    save id (with_status MutationPreviewStatus.consumed p)
    release (key_of p)
    return (with_status MutationPreviewStatus.consumed p)

  -- `cancel`
  unfoldable pub cancel : String → ℕ → StoreMethod MutationPreview
  unfolding active_preview save release
  cancel execution_id step_index = do
    p ← active_preview execution_id step_index
    ensure (is_pending p.status) (conflict "Only a pending mutation preview can be cancelled.")
    save p.preview_id (with_status MutationPreviewStatus.cancelled p)
    release (execution_id, step_index)
    return (with_status MutationPreviewStatus.cancelled p)

  -- `if existing_id: …`; an identifier is never the empty text.
  unfoldable pub refuse_second : Option String → StoreMethod (Unit {0})
  unfolding find
  refuse_second none = return tt
  refuse_second (some id) = do
    old ← find id key_error
    existing ← expire old
    ensure (not (is_pending existing.status))
        (conflict "A pending mutation preview already exists.")

  -- `fields.pop("created_at", None) or self.clock()`
  unfoldable pub time_or_clock : Option ℕ → StoreMethod ℕ
  unfolding clock
  time_or_clock none = clock
  time_or_clock (some time) = return time

  -- `create`, from the time of creation on.
  unfoldable pub store_new : PreviewFields → ℕ → StoreMethod MutationPreview
  unfolding token created accepted preview_rejection save
  store_new f now = do
    ttl ← ask (λ s. s.ttl)
    t ← token
    let p = created (str_append "mutprev_" t) f now (or_else f.expires_at (now + ttl))
    accepted (preview_rejection p) p
    save p.preview_id p
    update (λ s. record s { active = put s.active (f.execution_id, f.step_index) p.preview_id })
    return p

  -- `create`
  unfoldable pub create : PreviewFields → StoreMethod MutationPreview
  unfolding refuse_second make_room time_or_clock store_new
  create f = do
    entry ← ask (λ s. get s.active (f.execution_id, f.step_index))
    refuse_second entry
    make_room
    now ← time_or_clock f.created_at
    store_new f now
