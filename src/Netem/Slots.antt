-- ===== src/Netem/Slots.antt =====
-- The ids of the wrapper's jobs (server/src/simulator/netemLease.ts), their containers and their classes.
use Prim.Native.Char.{code}
use text.Mathlib.TextLemmas.{cons-append, append_cancel_left}
use devnet_deftrack.Common.{ℕ, ◌≡◌, String, ◌<>◌, arith, ap, ◌∙◌, sym}
use devnet_deftrack.Netem.{FaultClass, FaultJob, Preimage, container_of, fault_class_of}

abbrev first_code : String → ℕ
first_code String.[] = 0
first_code (String.◌∷◌ c s) = code c

-- What stands before the digest in an id, by class.
abbrev pub prefix_of : FaultClass → String
prefix_of FaultClass.netem = "netem-"
prefix_of FaultClass.service = "service-"
prefix_of FaultClass.dsl = "dsl-"

abbrev initial_of : FaultClass → ℕ
initial_of FaultClass.netem = b'n'
initial_of FaultClass.service = b's'
initial_of FaultClass.dsl = b'd'

first_code_of_prefix : (a : FaultClass) (x : String) → first_code (prefix_of a <> x) ≡ initial_of a
first_code_of_prefix FaultClass.netem x = rw cons-append
first_code_of_prefix FaultClass.service x = rw cons-append
first_code_of_prefix FaultClass.dsl x = rw cons-append

-- Ids of two classes differ, and within a class an id determines its digest.
id_cases :
    (a b : FaultClass) (x y : String) → (prefix_of a <> x) ≡ (prefix_of b <> y) → (a ≡ b) × (x ≡ y)
id_cases a b x y h = (same, append_cancel_left (prefix_of a) x y (rw (← same) at h))
  where
    same : a ≡ b
    same =
        let p = first_code_of_prefix a x in
        let q = first_code_of_prefix b y in let r = ap first_code h in ground arith

-- The digest does not confuse two hashed values that name different containers.
pub record IsFaithful (short : Preimage → String) : Type 0 where
  pub container : (p q : Preimage) → short p ≡ short q → container_of p ≡ container_of q

-- A job whose id was made by `netemJobId`, `serviceJobId` or `dslJobId` for its own container.
pub record IsMinted (short : Preimage → String) (job : FaultJob) : Type 0 where
  pub preimage : Preimage
  pub job_id : job.job_id ≡ (prefix_of (fault_class_of job) <> short preimage)
  pub container : job.container ≡ container_of preimage

pub id-slot :
    (short : Preimage → String)
    → IsFaithful short
    → (j k : FaultJob) → IsMinted short j
    → IsMinted short k
    → j.job_id ≡ k.job_id
    → (j.container ≡ k.container) × (fault_class_of j ≡ fault_class_of k)
id-slot short faithful j k m n e =
    let (same_class, same_digest) =
      id_cases (fault_class_of j) (fault_class_of k) (short m.preimage) (short n.preimage)
        (sym m.job_id ∙ e ∙ n.job_id) in
    let same = faithful.container m.preimage n.preimage same_digest in
    (m.container ∙ same ∙ sym n.container, same_class)
