-- ===== src/Client/Session/Shown.antt =====
-- What the commands of client/commands.c do with an answer, and the session.
use mathlib.Core.Path.{subst}
use itba_os_tp1_ipc_2016_q.Base.{
  ◌≡◌, refl, sym, Bool, true, false, some, codes, if◌then◌else◌, str_eq,
}
use itba_os_tp1_ipc_2016_q.Json.{Json}
use itba_os_tp1_ipc_2016_q.Serialization.Parse.{Parsed}
use itba_os_tp1_ipc_2016_q.Client.{Peer, Client, Env, says, print, done, show_data}
use itba_os_tp1_ipc_2016_q.Client.Commands.{
  show_int, show_double, show_string, logged_in, logged_out,
}
use itba_os_tp1_ipc_2016_q.Client.Session.{login_of, InStep, Keeps}

module _ {json : Json} {peer : Peer json} (Holds : Bool → peer.State → Type 0) where
  pub show_data-Keeps :
      (p : Parsed json) (c : Client json peer)
      → ((show_data p c).logged ≡ c.logged) × ((show_data p c).other ≡ c.other)
  unfolding show_data print
  show_data-Keeps (Parsed.raw bytes) c = (refl, refl)
  show_data-Keeps (Parsed.int i) c = (refl, refl)
  show_data-Keeps (Parsed.double d) c = (refl, refl)
  show_data-Keeps (Parsed.string s) c = (refl, refl)
  show_data-Keeps (Parsed.get_cmd cmd) c = (refl, refl)
  show_data-Keeps (Parsed.post_cmd cmd) c = (refl, refl)
  show_data-Keeps (Parsed.login_cmd user) c = (refl, refl)
  show_data-Keeps Parsed.logout_cmd c = (refl, refl)
  show_data-Keeps Parsed.close_cmd c = (refl, refl)
  show_data-Keeps (Parsed.new_user_cmd user) c = (refl, refl)
  show_data-Keeps (Parsed.change_pass_cmd cmd) c = (refl, refl)
  show_data-Keeps (Parsed.unknown kind) c = (refl, refl)

  pub done-Keeps :
      (p : Parsed json) (c : Client json peer) → InStep Holds c → Keeps Holds (done p c)
  unfolding done
  done-Keeps p c h =
      let (e, f) = show_data-Keeps p c in
      subst (λ b. Holds b (show_data p c).other) (sym e) (subst (Holds c.logged) (sym f) h)

  pub logged_out-Keeps :
      (env : Env json) (p : Parsed json) (c : Client json peer)
      → Holds false c.other
      → Keeps Holds (logged_out env p c)
  unfolding logged_out
  logged_out-Keeps env p c h = subst (Holds false) (sym (show_data-Keeps p c).1) h

  pub verdict-Keeps :
      (b : Bool) (c : Client json peer)
      → c.logged ≡ false
      → Holds (if b then false else true) c.other
      → Keeps Holds (if b then some (107, c) else some (0, record c { logged = true }))
  verdict-Keeps true c e h = subst (λ b. Holds b c.other) (sym e) h
  verdict-Keeps false c e h = h

  pub logged_in-Keeps :
      (env : Env json) (p : Parsed json) (c : Client json peer)
      → c.logged ≡ false
      → Holds (login_of p) c.other
      → Keeps Holds (logged_in env p c)
  unfolding logged_in
  logged_in-Keeps env (Parsed.raw bytes) c e h =
      verdict-Keeps (str_eq (codes "Login failed") bytes) (print (says bytes) c) (unfold print in e)
        (unfold print in h)
  logged_in-Keeps env (Parsed.int i) c e h = h
  logged_in-Keeps env (Parsed.double d) c e h = h
  logged_in-Keeps env (Parsed.string s) c e h = h
  logged_in-Keeps env (Parsed.get_cmd cmd) c e h = h
  logged_in-Keeps env (Parsed.post_cmd cmd) c e h = h
  logged_in-Keeps env (Parsed.login_cmd user) c e h = h
  logged_in-Keeps env Parsed.logout_cmd c e h = h
  logged_in-Keeps env Parsed.close_cmd c e h = h
  logged_in-Keeps env (Parsed.new_user_cmd user) c e h = h
  logged_in-Keeps env (Parsed.change_pass_cmd cmd) c e h = h
  logged_in-Keeps env (Parsed.unknown kind) c e h = h

  pub show_int-Keeps :
      (env : Env json) (p : Parsed json) (c : Client json peer)
      → InStep Holds c
      → Keeps Holds (show_int env p c)
  unfolding show_int print
  show_int-Keeps env (Parsed.int i) c h = h
  show_int-Keeps env (Parsed.raw bytes) c h = h
  show_int-Keeps env (Parsed.double d) c h = h
  show_int-Keeps env (Parsed.string s) c h = h
  show_int-Keeps env (Parsed.get_cmd cmd) c h = h
  show_int-Keeps env (Parsed.post_cmd cmd) c h = h
  show_int-Keeps env (Parsed.login_cmd user) c h = h
  show_int-Keeps env Parsed.logout_cmd c h = h
  show_int-Keeps env Parsed.close_cmd c h = h
  show_int-Keeps env (Parsed.new_user_cmd user) c h = h
  show_int-Keeps env (Parsed.change_pass_cmd cmd) c h = h
  show_int-Keeps env (Parsed.unknown kind) c h = h

  pub show_double-Keeps :
      (env : Env json) (p : Parsed json) (c : Client json peer)
      → InStep Holds c
      → Keeps Holds (show_double env p c)
  unfolding show_double print
  show_double-Keeps env (Parsed.int i) c h = h
  show_double-Keeps env (Parsed.raw bytes) c h = h
  show_double-Keeps env (Parsed.double d) c h = h
  show_double-Keeps env (Parsed.string s) c h = h
  show_double-Keeps env (Parsed.get_cmd cmd) c h = h
  show_double-Keeps env (Parsed.post_cmd cmd) c h = h
  show_double-Keeps env (Parsed.login_cmd user) c h = h
  show_double-Keeps env Parsed.logout_cmd c h = h
  show_double-Keeps env Parsed.close_cmd c h = h
  show_double-Keeps env (Parsed.new_user_cmd user) c h = h
  show_double-Keeps env (Parsed.change_pass_cmd cmd) c h = h
  show_double-Keeps env (Parsed.unknown kind) c h = h

  pub show_string-Keeps :
      (env : Env json) (p : Parsed json) (c : Client json peer)
      → InStep Holds c
      → Keeps Holds (show_string env p c)
  unfolding show_string print
  show_string-Keeps env (Parsed.int i) c h = h
  show_string-Keeps env (Parsed.raw bytes) c h = h
  show_string-Keeps env (Parsed.double d) c h = h
  show_string-Keeps env (Parsed.string s) c h = h
  show_string-Keeps env (Parsed.get_cmd cmd) c h = h
  show_string-Keeps env (Parsed.post_cmd cmd) c h = h
  show_string-Keeps env (Parsed.login_cmd user) c h = h
  show_string-Keeps env Parsed.logout_cmd c h = h
  show_string-Keeps env Parsed.close_cmd c h = h
  show_string-Keeps env (Parsed.new_user_cmd user) c h = h
  show_string-Keeps env (Parsed.change_pass_cmd cmd) c h = h
  show_string-Keeps env (Parsed.unknown kind) c h = h
