-- ===== src/Client/Shell/Rounds.antt =====
-- A turn of the loop of client/main.c.
use itba_os_tp1_ipc_2016_q.Base.{
  ℕ, zero, suc, ◌+◌, ◌≤◌, ◌≡◌, refl, ◌∙◌, ap, Bool, true, List, [], ◌∷◌, ◌++◌, Option, some, Bytes,
  ◌>>=◌, bind_ext, bind_assoc, map, length, set, Lacks, if◌then◌else◌,
}
use itba_os_tp1_ipc_2016_q.Channel.{c_str}
use itba_os_tp1_ipc_2016_q.Json.{Json}
use itba_os_tp1_ipc_2016_q.Client.{Peer, Client, Env}
use itba_os_tp1_ipc_2016_q.Client.Parse.{line, step}
use itba_os_tp1_ipc_2016_q.Client.Shell.{
  Shell, shell_size, read_keys, is_connection_closed, reset, round, shell,
}
use itba_os_tp1_ipc_2016_q.Client.Shell.Editing.{edited, IsStored, typed_line}

-- A line as it is typed: its last key is a character, and it fits the block.
pub record Typed : Type 0 where
  pub keys : List ℕ
  pub last : ℕ
  pub stored : IsStored last
  pub no_zero : Lacks 0 keys
  pub no_newline : Lacks 10 (keys ++ last ∷ [])
  pub no_end : Lacks 255 (keys ++ last ∷ [])
  pub room : length keys + 2 ≤ shell_size

abbrev pub text_of : Typed → Bytes
text_of t = edited [] (t.keys ++ t.last ∷ [])

abbrev pub input_of : List Typed → List ℕ
input_of [] = []
input_of (t ∷ lines) = (t.keys ++ t.last ∷ []) ++ 10 ∷ input_of lines

-- Between two lines.
pub record Ready (s : Shell) : Type 0 where
  pub cells : length s.shell_buffer ≡ shell_size
  pub first : s.shell_index ≡ 0

length-set : (xs : Bytes) (i x : ℕ) → length (set xs i x) ≡ length xs
length-set [] i x = refl
length-set (y ∷ xs) zero x = refl
length-set (y ∷ xs) (suc i) x = ap suc (length-set xs i x)

reset-Ready : (s : Shell) → length s.shell_buffer ≡ shell_size → Ready (reset s)
unfolding reset
reset-Ready s n = record { cells = length-set s.shell_buffer 0 0 ∙ n; first = refl }

module _ {json : Json} {peer : Peer json} (env : Env json) where
  -- The lines one after another, until one of them closes the connection.
  abbrev pub commands : List Bytes → Client json peer → Option (Bool × Client json peer)
  commands [] c = some (is_connection_closed c.state, c)
  commands (l ∷ lines) c =
      if is_connection_closed c.state
      then some (true, c)
      else (step env (line l) c >>= λ c'. commands lines c')

  one_round :
      (input rest : List ℕ) (s s' : Shell) (c : Client json peer)
      → read_keys input s ≡ some (s', rest)
      → round env input s c
        ≡ (step env (line (c_str s'.shell_buffer)) c >>= λ c'. some (rest, reset s', c'))
  unfolding round
  one_round input rest s s' c e =
      ap
        (λ o.
          o >>= λ r. step env (line (c_str r.0.shell_buffer)) c >>= λ c'. some (r.1, reset r.0, c'))
        e

  -- For lines that are typed one after another, each of which ends with a character before its newline
  -- and fits the block, as many turns of the loop do what the commands of their texts do, one after
  -- another until one of them closes the connection. The text of a line is what a plain editor gives; no
  -- turn leaves anything in the block that shows in the next line.
  pub shell-commands :
      (lines : List Typed) (s : Shell) (c : Client json peer)
      → Ready s
      → shell env (length lines) (input_of lines) s c ≡ commands (map text_of lines) c
  unfolding shell
  shell-commands [] s c r = refl
  shell-commands (t ∷ lines) s c r =
      let (s', e, f, n) =
        typed_line t.keys (input_of lines) t.last s t.stored t.no_zero t.no_newline t.no_end t.room
          r.cells r.first in
      let later =
        λ (s'' : Shell) (q : Ready s'') (c' : Client json peer). shell-commands lines s'' c' q in
      ap (λ o. if is_connection_closed c.state then some (true, c) else o)
        (ap (λ o. o >>= λ r. shell env (length lines) r.0 r.1 r.2)
            (one_round (input_of (t ∷ lines)) (input_of lines) s s' c e)
          ∙ bind_assoc (step env (line (c_str s'.shell_buffer)) c)
              (λ c'. some (input_of lines, reset s', c'))
              (λ r. shell env (length lines) r.0 r.1 r.2)
          ∙ ap
              (λ l. step env (line l) c >>= λ c'.
                shell env (length lines) (input_of lines) (reset s') c')
              f
          ∙ bind_ext (step env (line (text_of t)) c) _ (commands (map text_of lines))
              (λ c'. later (reset s') (reset-Ready s' n) c'))
