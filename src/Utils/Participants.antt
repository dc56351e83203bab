-- ===== src/Utils/Participants.antt =====
-- utils/utils.go: whether a subnet has the given nodes among its participants.
use netrunner.Prelude.{
  String, Bool, true, false, ◌≡◌, refl, List, [], ◌∷◌, Option, none, some, arith, if◌then◌else◌,
  eq_iff, eq_refl, ◌↔◌,
}
use netrunner.Prelude.Dict.{lookup, contains}
use netrunner.Server.Types.{ClusterInfo, SubnetInfo}

-- the node names of a subnet, none if it is not known
unfoldable pub participants_of : Option SubnetInfo → List String
participants_of none = []
participants_of (some i) = i.participants

-- the loop over the nodes; the inner one looks a name up
unfoldable pub all_among : List String → List String → Bool
all_among present [] = true
all_among present (node ∷ nodes) =
    let rest = all_among present nodes in if contains node present then rest else false

-- VerifySubnetHasCorrectParticipants
unfoldable pub verify_subnet_has_correct_participants :
    List String → Option ClusterInfo → String → Bool
unfolding participants_of all_among
verify_subnet_has_correct_participants nodes none subnet = false
verify_subnet_has_correct_participants nodes (some c) subnet =
    all_among (participants_of (lookup subnet c.subnets)) nodes

all_among_sound :
    (present nodes : List String) (node : String)
    → all_among present nodes ≡ true
    → contains node nodes ≡ true
    → contains node present ≡ true
unfolding all_among
all_among_sound present [] node all given = cc
all_among_sound present (first ∷ nodes) node all given =
    ground (arith, eq_iff first node, all_among_sound present nodes node)

all_among_complete :
    (present nodes : List String)
    → ((node : String) → contains node nodes ≡ true → contains node present ≡ true)
    → all_among present nodes ≡ true
unfolding all_among
all_among_complete present [] all = refl
all_among_complete present (first ∷ nodes) all =
    let here = all first (rw (eq_refl first) refl) in
    let rest = all_among_complete present nodes (λ node given. all node (ground (arith, given))) in
    rw here rest

-- With a cluster info, the check passes exactly if each of the nodes is among the subnet's
-- participants.
verify_subnet_has_correct_participants_iff :
    (nodes : List String) (c : ClusterInfo) (subnet : String)
    → (verify_subnet_has_correct_participants nodes (some c) subnet ≡ true) ↔ (
        (node : String)
        → contains node nodes ≡ true
        → contains node (participants_of (lookup subnet c.subnets)) ≡ true)
unfolding verify_subnet_has_correct_participants
verify_subnet_has_correct_participants_iff nodes c subnet =
    let present = participants_of (lookup subnet c.subnets) in
    (
      λ passed node given. all_among_sound present nodes node passed given,
      all_among_complete present nodes,
    )
