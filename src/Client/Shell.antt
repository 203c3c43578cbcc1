-- ===== src/Client/Shell.antt =====
-- The loop of client/main.c: the line that is typed, in the block of 2048 bytes that main allocates, and
-- the command that it gives.
pub mod Editing
pub mod Rounds
use itba_os_tp1_ipc_2016_q.Base.{
  ℕ, zero, suc, ◌-◌, Bool, true, false, List, [], ◌∷◌, Option, none, some, Bytes, ◌==◌, ◌>>=◌, ltb,
  if◌then◌else◌, ◌||◌, length, set, replicate,
}
use itba_os_tp1_ipc_2016_q.Channel.{c_str}
use itba_os_tp1_ipc_2016_q.Json.{Json}
use itba_os_tp1_ipc_2016_q.Client.{ConnectionState, idle, open_, closed, Peer, Client, Env}
use itba_os_tp1_ipc_2016_q.Client.Parse.{Event, line, step}

pub record Shell : Type 0 where
  pub shell_buffer : Bytes
  pub shell_index : ℕ

unfoldable pub shell_size : ℕ
shell_size = 2048

unfoldable pub new_shell : Shell
unfolding shell_size
new_shell = record { shell_buffer = replicate shell_size 0; shell_index = 0 }

-- A cell of the block; `none` is a write behind it.
unfoldable pub store_cell : Bytes → ℕ → ℕ → Option Bytes
store_cell buffer i x = if ltb i (length buffer) then some (set buffer i x) else none

unfoldable pub store_key : ℕ → Shell → Option Shell
unfolding store_cell
store_key c s = do
  buffer ← store_cell s.shell_buffer s.shell_index c
  ended ← store_cell buffer (suc s.shell_index) 0
  some (record { shell_buffer = ended; shell_index = suc s.shell_index })

-- The switch, but for the newline: a backspace moves the index alone.
unfoldable pub key : ℕ → Shell → Option Shell
unfolding store_key
key c s =
    if c == 8
    then some (record s { shell_index = s.shell_index - 1 })
    else if c == 13
    then some s
    else if c == 9
    then some s
    else store_key c s

-- The keys of a line, up to a newline or a character that equals `EOF`; what follows is not read. At
-- the end of the input that character is stored.
unfoldable pub read_keys : List ℕ → Shell → Option (Shell × List ℕ)
unfolding key
read_keys [] s = key 255 s >>= λ s'. some (s', [])
read_keys (c ∷ input) s =
    if c == 10
    then some (s, input)
    else key c s >>= λ s'.
        let later = read_keys input s' in if c == 255 then some (s', input) else later

unfoldable pub is_connection_closed : ConnectionState → Bool
is_connection_closed idle = false
is_connection_closed open_ = false
is_connection_closed closed = true

-- The first cell is cleared, and the next line starts there.
unfoldable pub reset : Shell → Shell
reset s = record { shell_buffer = set s.shell_buffer 0 0; shell_index = 0 }

module _ {json : Json} {peer : Peer json} (env : Env json) where
  -- A turn of the outer loop.
  unfoldable pub round :
      List ℕ → Shell → Client json peer → Option (List ℕ × Shell × Client json peer)
  unfolding read_keys c_str reset
  round input s c = do
    (s', rest) ← read_keys input s
    c' ← step env (line (c_str s'.shell_buffer)) c
    some (rest, reset s', c')

  -- At most so many turns; `false` says that more of them are left.
  unfoldable pub shell : ℕ → List ℕ → Shell → Client json peer → Option (Bool × Client json peer)
  unfolding round is_connection_closed
  shell zero input s c = some (is_connection_closed c.state, c)
  shell (suc turns) input s c =
      if is_connection_closed c.state
      then some (true, c)
      else (round input s c >>= λ r. shell turns r.0 r.1 r.2)
