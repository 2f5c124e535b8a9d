-- ===== src/Server/Console.antt =====
-- src/distributepki/debug.go: the commands of the debug console. A line is the list of its code points;
-- strings.Fields is written out. What a command does outside, a call of a node or a line printed, is an
-- entry of a list in the order in which it happens; a debug message that cannot be sent ends the process.
use distribute_pki.Base.{
  String, ◌||◌, Option, none, some, List, [], ◌∷◌, ◌++◌, ◌==◌, if◌then◌else◌, nat_eq, string_eq,
  Result, ok, err,
}
use distribute_pki.Pbft.Messages.{
  NodeId, NodeConfig, ClusterConfig, DebugOp, DebugMessage, up_op, down_op,
}
use distribute_pki.Pbft.Json.{Text, text_eq, atoi}
use distribute_pki.Pbft.Start.{is_space}

pub data Action : Type 0 where
  printed : String → Action
  -- sendDebugMessage
  sent_debug : NodeConfig → DebugMessage → Action
  -- doPut and doGet
  put_key : NodeConfig → Text → Text → Action
  got_key : NodeConfig → Text → Action

-- strings.Fields: `word` is what was read of the word that is not over, in reverse.
unfoldable pub add_word : Text → List Text → List Text
add_word [] words = words
add_word (c ∷ word) words = (c ∷ word) ∷ words

-- The first word of a text and the words after it
unfoldable pub split_words : Text → Text × List Text
split_words [] = ([], [])
split_words (c ∷ t) =
    let (word, words) = split_words t in
    if is_space c then ([], add_word word words) else (c ∷ word, words)

unfoldable pub fields : Text → List Text
fields t = let (word, words) = split_words t in add_word word words

-- The loop of `extractNode`
unfoldable pub find_node : NodeId → List NodeConfig → Option NodeConfig
find_node id [] = none
find_node id (n ∷ nodes) = if n.id == id then some n else find_node id nodes

-- `extractNode`, with what it prints
unfoldable pub extract_node : ClusterConfig → Text → List Action × Result NodeConfig
extract_node cluster arg =
    let (i, outcome) = atoi arg in
    elim outcome [
      | err e ↦ (printed "Please specify which node you want to bring up!" ∷ [], err e)
      | ok u ↦ elim (find_node i cluster.nodes) [
        | none ↦ ([], err "Couldn't find node with that id")
        | some n ↦ ([], ok n)
      ]
    ]

abbrev pub please : Action
please = printed "Please specify which node you want to send a debug message!"

unfoldable pub send_pbft : ClusterConfig → List Text → DebugMessage → List Action
send_pbft cluster [] message = please ∷ []
send_pbft cluster (arg ∷ args) message =
    let (actions, outcome) = extract_node cluster arg in
    elim outcome [
      | err e ↦ actions ++ please ∷ []
      | ok node ↦ actions ++ sent_debug node message ∷ []
    ]

unfoldable pub put_arguments : NodeConfig → List Text → List Action
put_arguments node (alias ∷ key ∷ args) = put_key node alias key ∷ []
put_arguments node [] = printed "also supply what keys to put!" ∷ []
put_arguments node (alias ∷ []) = printed "also supply what keys to put!" ∷ []

unfoldable pub extract_put_params : ClusterConfig → List Text → List Action
extract_put_params cluster [] = please ∷ []
extract_put_params cluster (arg ∷ args) =
    let (actions, outcome) = extract_node cluster arg in
    elim outcome [ err e ↦ actions | ok node ↦ actions ++ put_arguments node args ]

unfoldable pub get_arguments : NodeConfig → List Text → List Action
get_arguments node [] = printed "also supply what key to get!" ∷ []
get_arguments node (alias ∷ args) = got_key node alias ∷ []

unfoldable pub extract_get_params : ClusterConfig → List Text → List Action
extract_get_params cluster [] = please ∷ []
extract_get_params cluster (arg ∷ args) =
    let (actions, outcome) = extract_node cluster arg in
    elim outcome [ err e ↦ actions | ok node ↦ actions ++ get_arguments node args ]

-- "exit", "get", "update", "put", "up" and "down"
abbrev pub exit_word : Text
exit_word = 101 ∷ 120 ∷ 105 ∷ 116 ∷ []

abbrev pub get_word : Text
get_word = 103 ∷ 101 ∷ 116 ∷ []

abbrev pub update_word : Text
update_word = 117 ∷ 112 ∷ 100 ∷ 97 ∷ 116 ∷ 101 ∷ []

abbrev pub put_word : Text
put_word = 112 ∷ 117 ∷ 116 ∷ []

abbrev pub up_word : Text
up_word = 117 ∷ 112 ∷ []

abbrev pub down_word : Text
down_word = 100 ∷ 111 ∷ 119 ∷ 110 ∷ []

abbrev pub debug_message : DebugOp → DebugMessage
debug_message op = record { op = op; request = "" }

-- The switch of `StartDebugRepl`
unfoldable pub run_command : ClusterConfig → Text → List Text → List Action
run_command cluster cmd args =
    if text_eq.beq cmd get_word
    then extract_get_params cluster args
    else if text_eq.beq cmd update_word || text_eq.beq cmd put_word
    then extract_put_params cluster args
    else if text_eq.beq cmd up_word
    then send_pbft cluster args (debug_message up_op)
    else if text_eq.beq cmd down_word
    then send_pbft cluster args (debug_message down_op)
    else []

unfoldable pub run_line : ClusterConfig → List Text → List Action → List Action
run_line cluster [] later = later
run_line cluster (cmd ∷ args) later =
    if text_eq.beq cmd exit_word then [] else run_command cluster cmd args ++ later

-- `StartDebugRepl` on the lines that it reads: nothing is done after the word exit.
unfoldable pub start_debug_repl : ClusterConfig → List Text → List Action
start_debug_repl cluster [] = []
start_debug_repl cluster (line ∷ lines) =
    let later = start_debug_repl cluster lines in run_line cluster (fields line) later
