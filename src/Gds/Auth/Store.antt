-- ===== src/Gds/Auth/Store.antt =====
-- `AgentAuthStore` of gds/app/agent_auth.py, which reads the file again when its time has changed.
use opcua_implementaion.Prelude.{
  ℕ, String, Bool, true, false, Option, none, some, [], ◌==◌, number_eq, string_eq, if◌then◌else◌,
  ◌≡◌, refl, arith, Bool-cases, inl, inr, sym, Option-cases,
}
use opcua_implementaion.Prelude.Dict.{Dict, get}
use opcua_implementaion.Gds.Auth.Policies.{AgentPolicy, Payload, parse_policies}

-- `_cached_mtime` and `_cached_policies`.
pub record AgentAuthStore : Type 0 where
  pub cached_mtime : Option ℕ
  pub cached_policies : Dict String AgentPolicy

-- The file: absent, or its time of change and its content, `none` for one that cannot be read as JSON.
abbrev pub TokensFile : Type 0
TokensFile = Option (ℕ × Option Payload)

abbrev pub is_time : Option ℕ → ℕ → Bool
is_time none t = false
is_time (some u) t = t == u

pub data Loaded : Type 0 where
  raised : Loaded
  loaded : Dict String AgentPolicy → Loaded

abbrev pub read_file : ℕ → Option Payload → AgentAuthStore → Loaded × AgentAuthStore
read_file mtime none store = (raised, store)
read_file mtime (some raw) store = (
  loaded (parse_policies raw),
  record { cached_mtime = some mtime; cached_policies = parse_policies raw },
)

unfoldable pub load_policies : TokensFile → AgentAuthStore → Loaded × AgentAuthStore
load_policies none store = (loaded [], record { cached_mtime = none; cached_policies = [] })
load_policies (some (mtime, content)) store =
    if is_time store.cached_mtime mtime
    then (loaded store.cached_policies, store)
    else read_file mtime content store

pub data Looked : Type 0 where
  failed : Looked
  found : Option AgentPolicy → Looked

abbrev pub look : String → Loaded → Looked
look agent_id raised = failed
look agent_id (loaded policies) = found (get agent_id policies)

unfoldable pub get_policy : String → TokensFile → AgentAuthStore → Looked × AgentAuthStore
unfolding load_policies
get_policy agent_id file store =
    (look agent_id (load_policies file store).0, (load_policies file store).1)

same_time : (o : Option ℕ) (t : ℕ) → is_time o t ≡ true → o ≡ some t
same_time none t h = absurd (ground arith)
same_time (some u) t h = ground arith

abbrev pub parsed_content : Option Payload → Loaded
parsed_content none = raised
parsed_content (some raw) = loaded (parse_policies raw)

module _ (content : ℕ → Option Payload) where
  -- The file at a time, when its time of change decides its content.
  abbrev pub file_at : Option ℕ → TokensFile
  file_at none = none
  file_at (some mtime) = some (mtime, content mtime)

  -- What a store without a cache reads.
  abbrev pub fresh_policies : Option ℕ → Loaded
  fresh_policies none = loaded []
  fresh_policies (some mtime) = parsed_content (content mtime)

  -- The cache holds what the file had at the time that it remembers.
  abbrev pub IsCoherent : AgentAuthStore → Type 0
  IsCoherent store =
      (t : ℕ) → store.cached_mtime ≡ some t → fresh_policies (some t) ≡ loaded store.cached_policies

  reread :
      {mtime : ℕ} (t : ℕ) (raw : Payload)
      → content mtime ≡ some raw
      → mtime ≡ t
      → fresh_policies (some t) ≡ loaded (parse_policies raw)
  reread t raw parsed same = rw (sym same, parsed) refl

  -- Where the time of change decides the content of the file, a coherent store loads what the file
  -- says, fails exactly when it cannot be read, and stays coherent.
  pub load_policies-IsCoherent :
      (at : Option ℕ) (store : AgentAuthStore)
      → IsCoherent store
      → ((load_policies (file_at at) store).0 ≡ fresh_policies at)
        × IsCoherent (load_policies (file_at at) store).1
  unfolding load_policies
  load_policies-IsCoherent none store coherent = (refl, λ t h. absurd (ground arith))
  load_policies-IsCoherent (some mtime) store coherent =
      elim (Bool-cases (is_time store.cached_mtime mtime)) [
        | inl same ↦ (
          rw same (sym (coherent mtime (same_time store.cached_mtime mtime same))),
          rw same coherent,
        )
        | inr changed ↦ elim (Option-cases (content mtime)) [
          | inl broken ↦ rw changed (rw broken (refl, coherent))
          | inr (raw, parsed) ↦
              rw changed (rw parsed (refl, λ t h. reread t raw parsed (ground arith)))
        ]
      ]
