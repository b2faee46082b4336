-- ===== src/Platform/Config/RoundTrip.antt =====
-- The configuration file that `write_config` of platform/main.cpp writes, loaded again.
use mathlib.Core.Option
use Prim.Native.Char.{code}
use Prim.Native.String.{◌++◌}
use text.Mathlib.TextLemmas.{cons-append, nil-append, append_assoc, append-nil}
use g_agent.Base.{
  String, ◌∷◌, true, not, none, some, if◌then◌else◌, ◌==◌, nat_key, string_key, eq_iff, both_true,
  not-false, append-glue, ◌≡◌, refl, sym, ap, ◌∙◌, Bool-cases, inl, inr, ℤ, pos,
}
use g_agent.Platform.Input.{input, read_int, to_string}
use g_agent.Platform.Input.Numbers.{is_int, read_int-to_string}
use g_agent.Platform.Config.{
  Config, default_config, stoi, split_line, set_key, load_line, lines_of, push_char, load_lines,
  load, write_text, write_config,
}
use g_agent.Platform.Clients.Lines.{OneLine, OneLine-append, has_no_break, to_string-OneLine}

pub lines_of-front :
    (s t : String) → has_no_break s ≡ true → lines_of (s ++ ("\n" ++ t)) ≡ s ∷ lines_of t
unfolding lines_of
lines_of-front String.[] t h = ap lines_of (nil-append ("\n" ++ t) ∙ append-glue "\n" t) ∙ refl
lines_of-front (String.◌∷◌ c s) t h =
    let (first, rest) = both_true (not (code c == 10)) (has_no_break s) h in
    rw (cons-append c s ("\n" ++ t))
      (rw (not-false (code c == 10) first) (ap (push_char c) (lines_of-front s t rest)))

load_lines-front :
    (line rest : String) (c after : Config)
    → OneLine line
    → load_line line c ≡ some after
    → load_lines (lines_of (line ++ ("\n" ++ rest))) c ≡ load_lines (lines_of rest) after
unfolding load_lines Option.bind
load_lines-front line rest c after h e =
    ap (λ l. load_lines l c) (lines_of-front line rest h.no_break)
    ∙ ap (λ o. Option.bind o (load_lines (lines_of rest))) e

pub stoi-to_string : (n : ℤ) → is_int n ≡ true → stoi (to_string n) ≡ some n
unfolding stoi
stoi-to_string n h =
    ap (λ p. if p.1.good then some p.0 else none)
      (ap (λ s. read_int (input s) (pos 0)) (sym (append-nil (to_string n)))
        ∙ read_int-to_string n (pos 0) "" h refl)

module _ (c : Config) where
  load_line-master_ip :
      (v : String) → load_line ("master_ip=" ++ v) c ≡ some (record c { master_ip = v })
  unfolding load_line split_line set_key Option.map
  load_line-master_ip v = ap (λ s. load_line s c) (append-glue "master_ip=" v)

  load_line-slave_ip :
      (v : String) → load_line ("slave_ip=" ++ v) c ≡ some (record c { slave_ip = v })
  unfolding load_line split_line set_key Option.map
  load_line-slave_ip v = ap (λ s. load_line s c) (append-glue "slave_ip=" v)

  load_line-master_port :
      (n : ℤ)
      → is_int n ≡ true
      → load_line ("master_port=" ++ to_string n) c ≡ some (record c { master_port = n })
  unfolding load_line split_line set_key Option.map
  load_line-master_port n h =
      ap (λ s. load_line s c) (append-glue "master_port=" (to_string n))
      ∙ ap (Option.map (λ n. record c { master_port = n })) (stoi-to_string n h)

  load_line-control_port :
      (n : ℤ)
      → is_int n ≡ true
      → load_line ("control_port=" ++ to_string n) c ≡ some (record c { control_port = n })
  unfolding load_line split_line set_key Option.map
  load_line-control_port n h =
      ap (λ s. load_line s c) (append-glue "control_port=" (to_string n))
      ∙ ap (Option.map (λ n. record c { control_port = n })) (stoi-to_string n h)

  load_line-base_port :
      (n : ℤ)
      → is_int n ≡ true
      → load_line ("base_port=" ++ to_string n) c ≡ some (record c { base_port = n })
  unfolding load_line split_line set_key Option.map
  load_line-base_port n h =
      ap (λ s. load_line s c) (append-glue "base_port=" (to_string n))
      ∙ ap (Option.map (λ n. record c { base_port = n })) (stoi-to_string n h)

-- A line of an address, which is written if there is one.
load-write_text :
    (key v rest : String) (c after : Config)
    → OneLine key
    → OneLine v
    → load_line (key ++ v) c ≡ some after
    → (v ≡ "" → c ≡ after)
    → load_lines (lines_of (write_text key v rest)) c ≡ load_lines (lines_of rest) after
unfolding write_text
load-write_text key v rest c after k h e same = elim (Bool-cases (v == "")) [
  | inl empty ↦ rw empty (ap (load_lines (lines_of rest)) (same ((eq_iff v "").0 empty)))
  | inr full ↦ rw full (
      ap (λ s. load_lines (lines_of s) c) (sym (append_assoc key v ("\n" ++ rest)))
      ∙ load_lines-front (key ++ v) rest c after (OneLine-append k h) e)
]

-- A line of a number.
load-number :
    (key rest : String) (n : ℤ) (c after : Config)
    → OneLine key
    → load_line (key ++ to_string n) c ≡ some after
    → load_lines (lines_of (key ++ (to_string n ++ ("\n" ++ rest)))) c
      ≡ load_lines (lines_of rest) after
load-number key rest n c after k e =
    ap (λ s. load_lines (lines_of s) c) (sym (append_assoc key (to_string n) ("\n" ++ rest)))
    ∙ load_lines-front (key ++ to_string n) rest c after (OneLine-append k (to_string-OneLine n)) e

-- What the platform writes is what its programs load: a configuration with addresses of one line, 32-bit
-- ports and the timeout that a program starts with, which is not in the file.
pub load-write_config :
    (c : Config)
    → OneLine c.master_ip
    → OneLine c.slave_ip
    → is_int c.master_port ≡ true
    → is_int c.control_port ≡ true
    → is_int c.base_port ≡ true
    → c.socket_timeout ≡ pos 5
    → load (write_config c) default_config ≡ some c
unfolding load write_config load_lines lines_of
load-write_config c m s p q r t =
    let c1 : Config = record default_config { master_ip = c.master_ip } in
    let c2 : Config = record c1 { master_port = c.master_port } in
    let c3 : Config = record c2 { slave_ip = c.slave_ip } in
    let c4 : Config = record c3 { control_port = c.control_port } in
    let c5 : Config = record c4 { base_port = c.base_port } in
    let key : OneLine "master_ip=" = record { no_break = refl } in
    load-write_text "master_ip=" c.master_ip _ default_config c1 key m
      (load_line-master_ip default_config c.master_ip)
      (λ e. ap (λ v. record default_config { master_ip = v }) (sym e))
    ∙ load-number "master_port=" _ c.master_port c1 c2 (record { no_break = refl })
        (load_line-master_port c1 c.master_port p)
    ∙ load-write_text "slave_ip=" c.slave_ip _ c2 c3 (record { no_break = refl }) s
        (load_line-slave_ip c2 c.slave_ip) (λ e. ap (λ v. record c2 { slave_ip = v }) (sym e))
    ∙ load-number "control_port=" _ c.control_port c3 c4 (record { no_break = refl })
        (load_line-control_port c3 c.control_port q)
    ∙ load-number "base_port=" "" c.base_port c4 c5 (record { no_break = refl })
        (load_line-base_port c4 c.base_port r)
    ∙ ap (λ n. some (record c5 { socket_timeout = n })) (sym t)
