-- ===== src/Tests/Log.antt =====
-- A Log over stream buffers that are texts.
use rob320_p.Base.{ℕ, [], ◌∷◌, ◌++◌, true, false, none, refl, ◌==◌, if◌then◌else◌}
use rob320_p.Base.Int.{pos}
use rob320_p.Util.ArgumentValues.{Str}
use rob320_p.Util.Log.{Host, Log}
use rob320_p.Util.Log.Written.{IsReliable}

-- The standard output is buffer 1, the log file buffer 2, and there is no directory.
abbrev texts : Host
texts = record {
  State = ℕ → Str;
  sputc = λ c target s. (true, λ i. if i == target then s i ++ (c ∷ []) else s i);
  pubsync = λ target s. (true, s);
  now = λ s. (record { tp = pos 5 }, s);
  getenv_home = λ s. none;
  pw_dir = λ s. b'/' ∷ [];
  stat = λ path s. false;
  make_dir = λ path s. (true, s);
  open_file = λ path s. s;
  log_file = 2;
  date = λ t. b'5' ∷ [];
  decimal = λ n. b'5' ∷ [];
}

abbrev texts-IsReliable : IsReliable texts
texts-IsReliable = record {
  content = λ s. s;
  sputc_ok = λ c target s. refl;
  content-sputc = λ c target i s. refl;
  content-now = λ i s. refl;
}

abbrev started : Log
started = record { name = b'n' ∷ []; is_init = true; targets = 1 ∷ 2 ∷ []; good = λ n. true }

abbrev nothing : ℕ → Str
nothing i = []
