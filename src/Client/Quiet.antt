-- ===== src/Client/Quiet.antt =====
-- The checks of client/commands.c, where a command ends with a line that is printed and nothing else.
use mathlib.Core.Path.{subst}
use itba_os_tp1_ipc_2016_q.Base.{
  ℕ, ◌≡◌, refl, sym, ◌++◌, inl, inr, Bool-cases, true, false, List, [], ◌∷◌, none, some, Bytes,
  codes, str_eq, if◌then◌else◌,
}
use itba_os_tp1_ipc_2016_q.Json.{Json}
use itba_os_tp1_ipc_2016_q.Client.{
  Peer, Client, Outcome, Info, Line, text, is_connection_open, print, refuse, wrong_use, asks_help,
  unless_help, when_open, when_logged, connected, for_user,
}
use itba_os_tp1_ipc_2016_q.Client.Parse.{
  Command, name_of, info_of, table, print_names, print_help, help_for,
}

module _ {json : Json} {peer : Peer json} where
  -- The other side, the connection, the session and the waiting threads are as before.
  abbrev pub Same : Client json peer → Client json peer → Type 0
  Same c c' =
      (c'.other ≡ c.other)
      × (c'.state ≡ c.state)
      × (c'.logged ≡ c.logged)
      × (c'.listeners ≡ c.listeners)

  -- A command has ended, and nothing but what is printed is new.
  abbrev pub Quiet : Client json peer → Outcome json peer → Type 0
  Quiet c none = ⊥
  Quiet c (some (code, c')) = Same c c'

  pub print-Same : (line : Line json) (c : Client json peer) → Same c (print line c)
  unfolding print
  print-Same line c = (refl, refl, refl, refl)

  pub refuse-Quiet : (code : ℕ) (msg : Bytes) (c : Client json peer) → Quiet c (refuse code msg c)
  unfolding refuse
  refuse-Quiet code msg c = print-Same (text msg) c

  pub unless_help-Quiet :
      (info : Info) (argv : List Bytes) (command : Client json peer → Outcome json peer)
      (c : Client json peer)
      → Quiet c (command c)
      → Quiet c (unless_help info argv command c)
  unfolding unless_help
  unless_help-Quiet info argv command c h = elim (Bool-cases (asks_help argv)) [
    | inl t ↦ rw t (print-Same (text info.help) c)
    | inr f ↦ rw f h
  ]

  pub when_open-Quiet :
      (command : Client json peer → Outcome json peer) (c : Client json peer)
      → is_connection_open c.state ≡ false
      → Quiet c (when_open command c)
  unfolding when_open
  when_open-Quiet command c e = rw e (refuse-Quiet 102 (codes "Please open connection first") c)

  pub closed-Quiet :
      (info : Info) (argv : List Bytes) (command : Client json peer → Outcome json peer)
      (c : Client json peer)
      → is_connection_open c.state ≡ false
      → Quiet c (connected info argv command c)
  unfolding connected
  closed-Quiet info argv command c e =
      unless_help-Quiet info argv (when_open command) c (when_open-Quiet command c e)

  pub closed_user-Quiet :
      (info : Info) (argv : List Bytes) (msg : Bytes)
      (command : Client json peer → Outcome json peer) (c : Client json peer)
      → is_connection_open c.state ≡ false
      → Quiet c (for_user info argv msg command c)
  unfolding for_user
  closed_user-Quiet info argv msg command c e =
      closed-Quiet info argv (when_logged true 104 msg command) c e

  pub when_logged-Quiet :
      (msg : Bytes) (command : Client json peer → Outcome json peer) (c : Client json peer)
      → c.logged ≡ false
      → Quiet c (when_logged true 104 msg command c)
  unfolding when_logged
  when_logged-Quiet msg command c e =
      subst (λ b. Quiet c (if b then command c else refuse 104 msg c)) (sym e)
        (refuse-Quiet 104 msg c)

  pub when_open-logged :
      (command : Client json peer → Outcome json peer) (c : Client json peer)
      → Quiet c (command c)
      → Quiet c (when_open command c)
  unfolding when_open
  when_open-logged command c h = elim (Bool-cases (is_connection_open c.state)) [
    | inl t ↦ rw t h
    | inr f ↦ rw f (refuse-Quiet 102 (codes "Please open connection first") c)
  ]

  pub user-Quiet :
      (info : Info) (argv : List Bytes) (msg : Bytes)
      (command : Client json peer → Outcome json peer) (c : Client json peer)
      → c.logged ≡ false
      → Quiet c (for_user info argv msg command c)
  unfolding for_user connected
  user-Quiet info argv msg command c e =
      unless_help-Quiet info argv (when_open (when_logged true 104 msg command)) c
        (when_open-logged (when_logged true 104 msg command) c (when_logged-Quiet msg command c e))

  pub print_names-Same : (rest : List Command) (c : Client json peer) → Same c (print_names rest c)
  unfolding print_names print
  print_names-Same [] c = (refl, refl, refl, refl)
  print_names-Same (command ∷ rest) c = print_names-Same rest (print (text (name_of command)) c)

  pub print_help-Same :
      (name : Bytes) (rest : List Command) (c : Client json peer) → Same c (print_help name rest c)
  unfolding print_help print
  print_help-Same name [] c = (refl, refl, refl, refl)
  print_help-Same name (command ∷ rest) c = elim (Bool-cases (str_eq (name_of command) name)) [
    | inl t ↦
        subst
          (λ b.
            Same c (print_help name rest (if b then print (text (info_of command).help) c else c)))
          (sym t) (print_help-Same name rest (print (text (info_of command).help) c))
    | inr f ↦
        subst
          (λ b.
            Same c (print_help name rest (if b then print (text (info_of command).help) c else c)))
          (sym f) (print_help-Same name rest c)
  ]

  pub help_for-Quiet :
      (info : Info) (argv : List Bytes) (c : Client json peer) → Quiet c (help_for info argv c)
  unfolding help_for wrong_use
  help_for-Quiet info [] c = refuse-Quiet 103 (codes "Correct use: " ++ info.correct_use) c
  help_for-Quiet info (arg ∷ []) c = print_help-Same arg table c
  help_for-Quiet info (arg ∷ brg ∷ argv) c =
      refuse-Quiet 103 (codes "Correct use: " ++ info.correct_use) c
