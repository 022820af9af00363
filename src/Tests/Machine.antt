-- ===== src/Tests/Machine.antt =====
-- A small machine for the runs of the real backend: files, a number of open descriptors, no links.
use segwire.Base.{ℕ, ◌+◌, ◌-◌, Bool, true, some, [], ok, err, refl, arith, if◌then◌else◌}
use segwire.Text.{Text, lit}
use segwire.Text.Equality.{text_eq_refl, text_eq_iff}
use segwire.Map.{Map, lookup, insert, remove, contains_key, lookup-insert, lookup-remove}
use segwire.Error.{socket_error}
use segwire.Host.{Host, Action}
use segwire.Host.Descriptors.{IsCount}
use segwire.Netlink.Real.Agreement.{IsFiles}
use segwire.Netlink.Real.Agreement.Simulation.{IsGranting}
use segwire.Netlink.Real.Resolver.Stored.{IsStore}

pub record Machine : Type 0 where
  pub files : Map Text
  pub descriptors : ℕ
  -- whether sockets can be made
  pub has_sockets : Bool

abbrev succeed : {E : Type 0} → Action Machine E (Unit {0})
succeed m = (ok tt, m)

abbrev put_file : Text → Text → Action Machine Text (Unit {0})
put_file p content m = (ok tt, record m { files = insert p content m.files })

abbrev take_file : Text → Action Machine Text (Unit {0})
take_file p m = (
  if contains_key p m.files then ok tt else err (lit "No such file"),
  record m { files = remove p m.files },
)

-- A file that is there can be opened.
abbrev open_file : Text → Action Machine Text ℕ
open_file p m =
    if contains_key p m.files
    then (ok m.descriptors, record m { descriptors = m.descriptors + 1 })
    else (err (lit "No such file"), m)

abbrev pub machine : Host Machine
machine = record {
  is_root = λ m. true;
  exists = λ p m. contains_key p m.files;
  read_file = λ p m. lookup p m.files;
  inode = λ p m. some 7;
  read_dir = λ p m. ok [];
  create_dir_all = λ p. succeed;
  create_file = λ p. put_file p [];
  write_all = put_file;
  remove_file = take_file;
  unshare = succeed;
  bind_mount = λ p. succeed;
  umount = λ p. succeed;
  open_path = open_file;
  close = λ fd m. record m { descriptors = m.descriptors - 1 };
  setns = λ fd. succeed;
  open_route = λ m. (
    if m.has_sockets
        then ok tt
        else err (socket_error (lit "socket() failed: Too many open files")),
    m,
  );
  request = λ flags msg m. (ok [], m);
  configure_device = λ name c. succeed;
}

pub machine-IsFiles : IsFiles machine
machine-IsFiles = record {
  create_file = λ p q m. ground (arith, lookup-insert p q [] m.files);
  remove_file = λ p q m. ground (arith, lookup-remove p q m.files, text_eq_iff p q);
  removed = λ p m. ground arith;
  unshare = λ q m. refl;
  bind_mount = λ p q m. refl;
  umount = λ p q m. refl;
}

abbrev refuse : Action Machine Text (Unit {0})
refuse m = (err (lit "Device or resource busy"), m)

-- Nothing can be mounted and no file removed.
abbrev pub stuck : Host Machine
stuck = record machine { bind_mount = λ p. refuse; remove_file = λ p. refuse }

pub stuck-IsFiles : IsFiles stuck
stuck-IsFiles = record {
  create_file = λ p q m. ground (arith, lookup-insert p q [] m.files);
  remove_file = λ p q m. ground arith;
  removed = λ p m. refl;
  unshare = λ q m. refl;
  bind_mount = λ p q m. refl;
  umount = λ p q m. refl;
}

pub machine-IsGranting : IsGranting machine
machine-IsGranting = record {
  create_file = λ p m. refl;
  unshare = λ m. refl;
  bind_mount = λ p m. refl;
  umount = λ p m. refl;
  remove_file = λ p m h. ground arith;
}

pub machine-IsStore : IsStore machine
machine-IsStore = record {
  written = λ p content m h. ground (arith, lookup-insert p p content m.files, text_eq_refl p);
  create_dir_all = λ p q m h. h;
  create_file = λ p q m h. ground (arith, lookup-insert p q [] m.files);
  write_all = λ p q content m h. ground (arith, lookup-insert p q content m.files);
}

pub machine-IsCount : IsCount machine (λ m. m.descriptors)
machine-IsCount = record {
  open_path = λ p m. ground arith;
  close = λ fd m. refl;
  setns = λ fd m. refl;
  open_route = λ m. refl;
  request = λ flags msg m. refl;
}
