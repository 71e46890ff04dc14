-- ===== src/Cli/Invariant/Steps.antt =====
-- The functions of the client keep the invariant, however they end.
use me2u.Base.{ℕ, ◌≤◌, refl, List, [], ◌∷◌, ◌++◌, arith, take, Bool-cases, inl, inr, length-take-le}
use me2u.CString.{Bytes, cstr, strlen}
use me2u.System.{
  Machine, Effect, Read, got, failed, emit, get, pure, crash, read, take_read, traced,
}
use me2u.System.Keeps.{Keeps}
use me2u.Protocol.{maxline}
use me2u.CString.Laws.{length-cstr-le, length-overlay-le}
use me2u.Cli.Buffer.{process_string, ends_with_ending}
use me2u.Cli.Buffer.Messages.{
  message_end, bad_accesses, after_read, after_read-Holds, process_string_lem,
}
use me2u.Cli.Login.{clear_read_buf, store_read}
use me2u.Cli.State.{User, Client, error}
use me2u.Cli.Invariant.{IsValid, Registry}

module _ {sockfd : ℕ} where
  pub pure-Keeps : {A : Type 0} (a : A) → Keeps (IsValid sockfd) (pure a)
  pure-Keeps a = record { apply = λ m v. v }

  pub emit-Keeps : (e : Effect) → Keeps (IsValid sockfd) (emit e)
  emit-Keeps e = record { apply = λ m v. v }

  pub error-Keeps : {A : Type 0} (msg : Bytes) → Keeps (IsValid sockfd) (error {A = A} msg)
  error-Keeps msg = record { apply = λ m v. v }

  pub crash-Keeps : {A : Type 0} → Keeps (IsValid sockfd) (crash {A = A})
  crash-Keeps = record { apply = λ m v. v }

  pub get-Keeps : Keeps (IsValid sockfd) get
  get-Keeps = record { apply = λ m v. v }

  take_read-IsValid :
      (m : Machine Client) (rs : List Read) → IsValid sockfd m → IsValid sockfd (take_read m rs).0
  take_read-IsValid m [] v = v
  take_read-IsValid m (r ∷ rs) v = v

  pub read-Keeps : Keeps (IsValid sockfd) read
  read-Keeps = record { apply = λ m v. take_read-IsValid m m.os.reads v }

  message_end-IsValid :
      (m : Machine Client) (text : Bytes) → IsValid sockfd m → IsValid sockfd (message_end m text).0
  message_end-IsValid m text v = elim (Bool-cases (ends_with_ending text)) [
    | inl done ↦ rw done (record {
      text = [];
      holds = record {
        text_is = refl;
        no_zero = tt;
        has_room = omega arith;
        size_ge = omega arith;
      };
      fits = v.fits;
      registry = v.registry;
      asked = v.asked;
      fresh = v.fresh;
    })
    | inr more ↦ rw more v
  ]

  -- `process_string` on the buffer, whatever was read.
  pub process_string-IsValid :
      (m : Machine Client)
      → IsValid sockfd m
      → IsValid sockfd (process_string m.globals.read_buf m).0
  process_string-IsValid m v =
      let b = m.globals.read_buf in
      let le : strlen b ≤ maxline = unfold strlen in omega (arith, length-cstr-le b, v.fits) in
      rw (process_string_lem m v.text b v.holds le) (
        message_end-IsValid (traced (after_read m v.text b) (bad_accesses b (v.text ++ cstr b)))
          (v.text ++ cstr b)
          (record {
            text = v.text ++ cstr b;
            holds = after_read-Holds m v.text b v.holds le;
            fits = v.fits;
            registry = v.registry;
            asked = v.asked;
            fresh = v.fresh;
          }))

  pub clear_read_buf-Keeps : Keeps (IsValid sockfd) clear_read_buf
  unfolding clear_read_buf
  clear_read_buf-Keeps = record {
    apply = λ m v. record {
      text = v.text;
      holds = v.holds;
      fits = omega arith;
      registry = v.registry;
      asked = v.asked;
      fresh = v.fresh;
    };
  }

  pub store_read-Keeps : (r : Read) → Keeps (IsValid sockfd) (store_read r)
  unfolding store_read
  store_read-Keeps failed = record { apply = λ m v. v }
  store_read-Keeps (got b) = record {
    apply = λ m v. record {
      text = v.text;
      holds = v.holds;
      fits =
          length-overlay-le maxline (take maxline b) m.globals.read_buf (length-take-le maxline b)
            v.fits;
      registry = v.registry;
      asked = v.asked;
      fresh = v.fresh;
    };
  }

  -- The list of users alone is changed.
  pub with_users :
      (m : Machine Client) (us : List User)
      → IsValid sockfd m
      → Registry sockfd us
      → IsValid sockfd (record m { globals = record m.globals { users = us } })
  with_users m us v r = record {
    text = v.text;
    holds = v.holds;
    fits = v.fits;
    registry = r;
    asked = v.asked;
    fresh = v.fresh;
  }
