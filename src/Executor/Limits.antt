-- ===== src/Executor/Limits.antt =====
-- `setChildLimits` of src/service/executor_service.cc: the limits that the child process sets before it
-- runs the submission. The arguments are not negative, and rlim_t has 64 bits.
use cpp_oj_vbcoding_teach.Prelude.{
  ℕ, ◌+◌, ◌*◌, ◌%◌, ◌^◌, ◌≤◌, ◌<◌, ◌≡◌, refl, List, [], ◌∷◌, All, map, arith,
}

-- RLIMIT_CPU in seconds, RLIMIT_AS, RLIMIT_CORE and RLIMIT_FSIZE in bytes.
pub data Resource : Type 0 where
  cpu address_space core file_size : Resource

pub record Limit : Type 0 where
  pub resource : Resource
  pub soft : ℕ
  pub hard : ℕ

-- The value of an rlim_t.
abbrev rlim : ℕ → ℕ
rlim n = n % 2 ^ 64

-- The calls of setrlimit, in order.
unfoldable pub set_child_limits : ℕ → ℕ → List Limit
set_child_limits timeout_sec memory_limit_mb =
    let mem_bytes = rlim (rlim (memory_limit_mb * 1024) * 1024) in
    record { resource = cpu; soft = rlim timeout_sec; hard = rlim (timeout_sec + 1) }
    ∷ record {
      resource = address_space;
      soft = mem_bytes;
      hard = rlim (mem_bytes + rlim (rlim (256 * 1024) * 1024));
    }
    ∷ record { resource = core; soft = 0; hard = 0 }
    ∷ record { resource = file_size; soft = rlim (timeout_sec + 2); hard = rlim (timeout_sec + 2) }
    ∷ []

abbrev pub resource_of : Limit → Resource
resource_of limit = limit.resource

four_same :
    {a b c a' b' c' : ℕ}
    → a ≡ a'
    → b ≡ b'
    → c ≡ c'
    → ◌≡◌ {A = List ℕ} (a ∷ b ∷ 0 ∷ c ∷ []) (a' ∷ b' ∷ 0 ∷ c' ∷ [])
four_same e f g = λ i. e i ∷ f i ∷ 0 ∷ g i ∷ []

-- For every time limit that is an `int` together with 2 more, and every memory limit that is an `int`, each
-- of the four limits has a soft value that is at most its hard value, so that setrlimit takes it, and no
-- product wraps: the processor time is the time limit, the address space that many mebibytes, and a file
-- may have as many bytes as the time limit has seconds, and 2 more.
pub set_child_limits_lem :
    (timeout_sec memory_limit_mb : ℕ)
    → timeout_sec + 2 < 2 ^ 31
    → memory_limit_mb < 2 ^ 31
    → All (λ limit. limit.soft ≤ limit.hard) (set_child_limits timeout_sec memory_limit_mb)
      × (map (λ limit. limit.soft) (set_child_limits timeout_sec memory_limit_mb)
          ≡ timeout_sec ∷ (memory_limit_mb * 2 ^ 20) ∷ 0 ∷ (timeout_sec + 2) ∷ [])
      × (map resource_of (set_child_limits timeout_sec memory_limit_mb)
          ≡ cpu ∷ address_space ∷ core ∷ file_size ∷ [])
unfolding set_child_limits
set_child_limits_lem t m ht hm = (
  (omega arith, (omega arith, (omega arith, (omega arith, tt)))),
  four_same (omega arith) (omega arith) (omega arith),
  refl,
)
