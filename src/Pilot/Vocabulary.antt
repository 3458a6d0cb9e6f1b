-- ===== src/Pilot/Vocabulary.antt =====
-- The closed vocabularies of the pilot: arms, capabilities, states and kinds of event
-- (src/pilot/contracts.ts, src/pilot/state-machine.ts).
use agent_orchestration_star.Base.{
  ℕ, Bool, List, ◌≡◌, refl, Comparable, nat_beq, tag_eq_iff, ◌↔◌, true, if◌then◌else◌, elem, [],
  ◌∷◌,
}

pub data PilotArm : Type 0 where
  strong_baseline cheap_no_early_escalation adaptive_early_escalation : PilotArm

abbrev arm_tag : PilotArm → ℕ
arm_tag strong_baseline = 0
arm_tag cheap_no_early_escalation = 1
arm_tag adaptive_early_escalation = 2

abbrev arm_of_tag : ℕ → PilotArm
arm_of_tag n =
    if nat_beq n 0
    then strong_baseline
    else if nat_beq n 1
    then cheap_no_early_escalation
    else adaptive_early_escalation

arm_tag_back : (x : PilotArm) → arm_of_tag (arm_tag x) ≡ x
arm_tag_back strong_baseline = refl
arm_tag_back cheap_no_early_escalation = refl
arm_tag_back adaptive_early_escalation = refl

abbrev pub arm_beq : PilotArm → PilotArm → Bool
arm_beq a b = nat_beq (arm_tag a) (arm_tag b)

pub arm_beq_iff : (a b : PilotArm) → (arm_beq a b ≡ true) ↔ (a ≡ b)
arm_beq_iff = tag_eq_iff arm_tag arm_of_tag arm_tag_back

instance abbrev pub arm_eq : Comparable PilotArm
arm_eq = record { equal = arm_beq; equal_iff = arm_beq_iff }

-- Every value, for checks by cases.
abbrev pub arm_values : List PilotArm
arm_values = strong_baseline ∷ cheap_no_early_escalation ∷ adaptive_early_escalation ∷ []

pub arm_values_complete : (x : PilotArm) → elem x arm_values ≡ true
arm_values_complete strong_baseline = refl
arm_values_complete cheap_no_early_escalation = refl
arm_values_complete adaptive_early_escalation = refl

pub data Capability : Type 0 where
  cheap strong : Capability

abbrev capability_tag : Capability → ℕ
capability_tag cheap = 0
capability_tag strong = 1

abbrev capability_of_tag : ℕ → Capability
capability_of_tag n = if nat_beq n 0 then cheap else strong

capability_tag_back : (x : Capability) → capability_of_tag (capability_tag x) ≡ x
capability_tag_back cheap = refl
capability_tag_back strong = refl

abbrev pub capability_beq : Capability → Capability → Bool
capability_beq a b = nat_beq (capability_tag a) (capability_tag b)

pub capability_beq_iff : (a b : Capability) → (capability_beq a b ≡ true) ↔ (a ≡ b)
capability_beq_iff = tag_eq_iff capability_tag capability_of_tag capability_tag_back

instance abbrev pub capability_eq : Comparable Capability
capability_eq = record { equal = capability_beq; equal_iff = capability_beq_iff }

-- Every value, for checks by cases.
abbrev pub capability_values : List Capability
capability_values = cheap ∷ strong ∷ []

pub capability_values_complete : (x : Capability) → elem x capability_values ≡ true
capability_values_complete cheap = refl
capability_values_complete strong = refl

pub data AttemptKind : Type 0 where
  implementation repair_1 final_execution : AttemptKind

abbrev kind_tag : AttemptKind → ℕ
kind_tag implementation = 0
kind_tag repair_1 = 1
kind_tag final_execution = 2

abbrev kind_of_tag : ℕ → AttemptKind
kind_of_tag n =
    if nat_beq n 0 then implementation else if nat_beq n 1 then repair_1 else final_execution

kind_tag_back : (x : AttemptKind) → kind_of_tag (kind_tag x) ≡ x
kind_tag_back implementation = refl
kind_tag_back repair_1 = refl
kind_tag_back final_execution = refl

abbrev pub kind_beq : AttemptKind → AttemptKind → Bool
kind_beq a b = nat_beq (kind_tag a) (kind_tag b)

pub kind_beq_iff : (a b : AttemptKind) → (kind_beq a b ≡ true) ↔ (a ≡ b)
kind_beq_iff = tag_eq_iff kind_tag kind_of_tag kind_tag_back

instance abbrev pub kind_eq : Comparable AttemptKind
kind_eq = record { equal = kind_beq; equal_iff = kind_beq_iff }

-- Every value, for checks by cases.
abbrev pub kind_values : List AttemptKind
kind_values = implementation ∷ repair_1 ∷ final_execution ∷ []

pub kind_values_complete : (x : AttemptKind) → elem x kind_values ≡ true
kind_values_complete implementation = refl
kind_values_complete repair_1 = refl
kind_values_complete final_execution = refl

pub data Decision : Type 0 where
  accept reject : Decision

abbrev decision_tag : Decision → ℕ
decision_tag accept = 0
decision_tag reject = 1

abbrev decision_of_tag : ℕ → Decision
decision_of_tag n = if nat_beq n 0 then accept else reject

decision_tag_back : (x : Decision) → decision_of_tag (decision_tag x) ≡ x
decision_tag_back accept = refl
decision_tag_back reject = refl

abbrev pub decision_beq : Decision → Decision → Bool
decision_beq a b = nat_beq (decision_tag a) (decision_tag b)

pub decision_beq_iff : (a b : Decision) → (decision_beq a b ≡ true) ↔ (a ≡ b)
decision_beq_iff = tag_eq_iff decision_tag decision_of_tag decision_tag_back

instance abbrev pub decision_eq : Comparable Decision
decision_eq = record { equal = decision_beq; equal_iff = decision_beq_iff }

-- Every value, for checks by cases.
abbrev pub decision_values : List Decision
decision_values = accept ∷ reject ∷ []

pub decision_values_complete : (x : Decision) → elem x decision_values ≡ true
decision_values_complete accept = refl
decision_values_complete reject = refl

pub data IsolationStatus : Type 0 where
  clean contaminated : IsolationStatus

abbrev isolation_tag : IsolationStatus → ℕ
isolation_tag clean = 0
isolation_tag contaminated = 1

abbrev isolation_of_tag : ℕ → IsolationStatus
isolation_of_tag n = if nat_beq n 0 then clean else contaminated

isolation_tag_back : (x : IsolationStatus) → isolation_of_tag (isolation_tag x) ≡ x
isolation_tag_back clean = refl
isolation_tag_back contaminated = refl

abbrev pub isolation_beq : IsolationStatus → IsolationStatus → Bool
isolation_beq a b = nat_beq (isolation_tag a) (isolation_tag b)

pub isolation_beq_iff : (a b : IsolationStatus) → (isolation_beq a b ≡ true) ↔ (a ≡ b)
isolation_beq_iff = tag_eq_iff isolation_tag isolation_of_tag isolation_tag_back

instance abbrev pub isolation_eq : Comparable IsolationStatus
isolation_eq = record { equal = isolation_beq; equal_iff = isolation_beq_iff }

-- Every value, for checks by cases.
abbrev pub isolation_values : List IsolationStatus
isolation_values = clean ∷ contaminated ∷ []

pub isolation_values_complete : (x : IsolationStatus) → elem x isolation_values ≡ true
isolation_values_complete clean = refl
isolation_values_complete contaminated = refl

pub data FindingStatus : Type 0 where
  open_finding resolved : FindingStatus

abbrev finding_tag : FindingStatus → ℕ
finding_tag open_finding = 0
finding_tag resolved = 1

abbrev finding_of_tag : ℕ → FindingStatus
finding_of_tag n = if nat_beq n 0 then open_finding else resolved

finding_tag_back : (x : FindingStatus) → finding_of_tag (finding_tag x) ≡ x
finding_tag_back open_finding = refl
finding_tag_back resolved = refl

abbrev pub finding_beq : FindingStatus → FindingStatus → Bool
finding_beq a b = nat_beq (finding_tag a) (finding_tag b)

pub finding_beq_iff : (a b : FindingStatus) → (finding_beq a b ≡ true) ↔ (a ≡ b)
finding_beq_iff = tag_eq_iff finding_tag finding_of_tag finding_tag_back

instance abbrev pub finding_eq : Comparable FindingStatus
finding_eq = record { equal = finding_beq; equal_iff = finding_beq_iff }

-- Every value, for checks by cases.
abbrev pub finding_values : List FindingStatus
finding_values = open_finding ∷ resolved ∷ []

pub finding_values_complete : (x : FindingStatus) → elem x finding_values ≡ true
finding_values_complete open_finding = refl
finding_values_complete resolved = refl

pub data UsageRole : Type 0 where
  orchestrator executor reviewer : UsageRole

abbrev role_tag : UsageRole → ℕ
role_tag orchestrator = 0
role_tag executor = 1
role_tag reviewer = 2

abbrev role_of_tag : ℕ → UsageRole
role_of_tag n = if nat_beq n 0 then orchestrator else if nat_beq n 1 then executor else reviewer

role_tag_back : (x : UsageRole) → role_of_tag (role_tag x) ≡ x
role_tag_back orchestrator = refl
role_tag_back executor = refl
role_tag_back reviewer = refl

abbrev pub role_beq : UsageRole → UsageRole → Bool
role_beq a b = nat_beq (role_tag a) (role_tag b)

pub role_beq_iff : (a b : UsageRole) → (role_beq a b ≡ true) ↔ (a ≡ b)
role_beq_iff = tag_eq_iff role_tag role_of_tag role_tag_back

instance abbrev pub role_eq : Comparable UsageRole
role_eq = record { equal = role_beq; equal_iff = role_beq_iff }

-- Every value, for checks by cases.
abbrev pub role_values : List UsageRole
role_values = orchestrator ∷ executor ∷ reviewer ∷ []

pub role_values_complete : (x : UsageRole) → elem x role_values ≡ true
role_values_complete orchestrator = refl
role_values_complete executor = refl
role_values_complete reviewer = refl

pub data ActorRole : Type 0 where
  orchestrator reviewer human : ActorRole

pub data BlockedCause : Type 0 where
  external environmental : BlockedCause

pub data Severity : Type 0 where
  low medium high critical : Severity
