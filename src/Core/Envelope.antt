-- ===== src/Core/Envelope.antt =====
-- What a task's metadata says, with no buffers and no bytes: four names, a number and two tags.
-- `Represents` links it to the structure of cluster_core.h and `Encodes` to a message frame.
use sim_tools.Base.{ℕ, ◌≡◌, refl, sym, ◌∙◌, ◌<◌, ◌^◌, length}
use sim_tools.Base.Bytes.{Bytes}
use sim_tools.Base.Outcome.{Outcome, done}
use sim_tools.Core.Types.{
  TaskMeta, TaskAddr, TaskType, TaskDirection, IsMeta, IsAddr, direction_code, type_code,
}
use sim_tools.Core.Text.{c_string}
use sim_tools.Core.Names.{IsName, copy_name-done, c_string-IsName, swap_buffer_lem}
use sim_tools.Core.Wire.{encode_meta, load_meta, store_meta}
use sim_tools.Core.Layout.{length-encode_meta, load_meta-encode_meta, store_meta-done}
use sim_tools.Core.Address.{
  put_from_cluster_id, put_from_id, put_to_cluster_id, put_to_id, swap_addr,
}

pub record Envelope : Type 0 where
  pub from_cluster : Bytes
  pub from : Bytes
  pub to_cluster : Bytes
  pub to : Bytes
  pub task : ℕ
  pub kind : TaskType
  pub direction : TaskDirection

pub record Represents (m : TaskMeta) (e : Envelope) : Type 0 where
  pub meta_ok : IsMeta m
  pub from_cluster_read : c_string m.task_addr.from_cluster_id ≡ done e.from_cluster
  pub from_read : c_string m.task_addr.from_id ≡ done e.from
  pub to_cluster_read : c_string m.task_addr.to_cluster_id ≡ done e.to_cluster
  pub to_read : c_string m.task_addr.to_id ≡ done e.to
  pub task_eq : m.task_id ≡ e.task
  pub kind_eq : m.task_type ≡ e.kind
  pub direction_eq : m.task_direction ≡ e.direction

abbrev pub Encodes : Bytes → Envelope → Type 0
Encodes f e = (m : TaskMeta) × (f ≡ encode_meta m) × Represents m e

-- A computation on a structure succeeds, and what it leaves represents the envelope.
abbrev pub Yields : Outcome TaskMeta → Envelope → Type 0
Yields r e = (m : TaskMeta) × (r ≡ done m) × Represents m e

-- The names of an envelope that a structure represents.
pub record AreNames (e : Envelope) : Type 0 where
  pub from_cluster_name : IsName e.from_cluster
  pub from_name : IsName e.from
  pub to_cluster_name : IsName e.to_cluster
  pub to_name : IsName e.to

pub Represents-AreNames : (m : TaskMeta) (e : Envelope) → Represents m e → AreNames e
Represents-AreNames m e r = record {
  from_cluster_name = c_string-IsName _ _ r.meta_ok.addr_ok.from_cluster_ok r.from_cluster_read;
  from_name = c_string-IsName _ _ r.meta_ok.addr_ok.from_ok r.from_read;
  to_cluster_name = c_string-IsName _ _ r.meta_ok.addr_ok.to_cluster_ok r.to_cluster_read;
  to_name = c_string-IsName _ _ r.meta_ok.addr_ok.to_ok r.to_read;
}

-- A new address, and the names that its buffers hold.
readdress :
    (m : TaskMeta) (e e' : Envelope) (a : TaskAddr)
    → Represents m e
    → IsAddr a
    → (c_string a.from_cluster_id ≡ done e'.from_cluster)
      × (c_string a.from_id ≡ done e'.from)
      × (c_string a.to_cluster_id ≡ done e'.to_cluster)
      × (c_string a.to_id ≡ done e'.to)
    → (e'.task ≡ e.task) × (e'.kind ≡ e.kind) × (e'.direction ≡ e.direction)
    → Represents (record m { task_addr = a }) e'
readdress m e e' a r ok reads same = record {
  meta_ok = record {
    addr_ok = ok;
    id_ok = r.meta_ok.id_ok;
    type_ok = r.meta_ok.type_ok;
    direction_ok = r.meta_ok.direction_ok;
  };
  from_cluster_read = reads.0;
  from_read = reads.1;
  to_cluster_read = reads.2;
  to_read = reads.3;
  task_eq = r.task_eq ∙ sym same.0;
  kind_eq = r.kind_eq ∙ sym same.1;
  direction_eq = r.direction_eq ∙ sym same.2;
}

module _ (m : TaskMeta) (e : Envelope) (s : Bytes) (r : Represents m e) (n : IsName s) where
  pub put_from_cluster_id-Yields : Yields (put_from_cluster_id m s) (record e { from_cluster = s })
  unfolding put_from_cluster_id
  put_from_cluster_id-Yields =
      let (b, p, ok, q) =
        copy_name-done m.task_addr.from_cluster_id s r.meta_ok.addr_ok.from_cluster_ok n in
      (
        record m { task_addr = record (m.task_addr) { from_cluster_id = b } },
        rw p,
        readdress m e (record e { from_cluster = s }) (record (m.task_addr) { from_cluster_id = b })
            r
            (record {
              from_cluster_ok = ok;
              from_ok = r.meta_ok.addr_ok.from_ok;
              to_cluster_ok = r.meta_ok.addr_ok.to_cluster_ok;
              to_ok = r.meta_ok.addr_ok.to_ok;
            })
            (q, r.from_read, r.to_cluster_read, r.to_read) (refl, refl, refl),
      )

  pub put_from_id-Yields : Yields (put_from_id m s) (record e { from = s })
  unfolding put_from_id
  put_from_id-Yields =
      let (b, p, ok, q) = copy_name-done m.task_addr.from_id s r.meta_ok.addr_ok.from_ok n in
      (
        record m { task_addr = record (m.task_addr) { from_id = b } },
        rw p,
        readdress m e (record e { from = s }) (record (m.task_addr) { from_id = b }) r
            (record {
              from_cluster_ok = r.meta_ok.addr_ok.from_cluster_ok;
              from_ok = ok;
              to_cluster_ok = r.meta_ok.addr_ok.to_cluster_ok;
              to_ok = r.meta_ok.addr_ok.to_ok;
            })
            (r.from_cluster_read, q, r.to_cluster_read, r.to_read) (refl, refl, refl),
      )

  pub put_to_cluster_id-Yields : Yields (put_to_cluster_id m s) (record e { to_cluster = s })
  unfolding put_to_cluster_id
  put_to_cluster_id-Yields =
      let (b, p, ok, q) =
        copy_name-done m.task_addr.to_cluster_id s r.meta_ok.addr_ok.to_cluster_ok n in
      (
        record m { task_addr = record (m.task_addr) { to_cluster_id = b } },
        rw p,
        readdress m e (record e { to_cluster = s }) (record (m.task_addr) { to_cluster_id = b }) r
            (record {
              from_cluster_ok = r.meta_ok.addr_ok.from_cluster_ok;
              from_ok = r.meta_ok.addr_ok.from_ok;
              to_cluster_ok = ok;
              to_ok = r.meta_ok.addr_ok.to_ok;
            })
            (r.from_cluster_read, r.from_read, q, r.to_read) (refl, refl, refl),
      )

  pub put_to_id-Yields : Yields (put_to_id m s) (record e { to = s })
  unfolding put_to_id
  put_to_id-Yields =
      let (b, p, ok, q) = copy_name-done m.task_addr.to_id s r.meta_ok.addr_ok.to_ok n in
      (
        record m { task_addr = record (m.task_addr) { to_id = b } },
        rw p,
        readdress m e (record e { to = s }) (record (m.task_addr) { to_id = b }) r
            (record {
              from_cluster_ok = r.meta_ok.addr_ok.from_cluster_ok;
              from_ok = r.meta_ok.addr_ok.from_ok;
              to_cluster_ok = r.meta_ok.addr_ok.to_cluster_ok;
              to_ok = ok;
            })
            (r.from_cluster_read, r.from_read, r.to_cluster_read, q) (refl, refl, refl),
      )

-- A task that is turned round.
abbrev pub turned : Envelope → Envelope
turned e = record e {
  from_cluster = e.to_cluster;
  from = e.to;
  to_cluster = e.from_cluster;
  to = e.from;
}

pub swap_addr-Yields :
    (m : TaskMeta) (e : Envelope) → Represents m e → Yields (swap_addr m) (turned e)
unfolding swap_addr
swap_addr-Yields m e r =
    let a = r.meta_ok.addr_ok in
    let back : TaskAddr = record {
      from_cluster_id = m.task_addr.to_cluster_id;
      from_id = m.task_addr.to_id;
      to_cluster_id = m.task_addr.from_cluster_id;
      to_id = m.task_addr.from_id;
    } in
    (
      record m { task_addr = back },
      rw (
        swap_buffer_lem m.task_addr.from_id m.task_addr.to_id a.from_ok.0 a.to_ok.0,
        swap_buffer_lem m.task_addr.from_cluster_id m.task_addr.to_cluster_id a.from_cluster_ok.0
            a.to_cluster_ok.0,
      ),
      readdress m e (turned e) back r
          (record {
            from_cluster_ok = a.to_cluster_ok;
            from_ok = a.to_ok;
            to_cluster_ok = a.from_cluster_ok;
            to_ok = a.from_ok;
          })
          (r.to_cluster_read, r.to_read, r.from_cluster_read, r.from_read) (refl, refl, refl),
    )

-- Setting the two tags.
pub retag :
    (m : TaskMeta) (e : Envelope) (d : TaskDirection) (k : TaskType)
    → Represents m e
    → direction_code d < 2 ^ 32
    → type_code k < 2 ^ 32
    → Represents
        (record m { task_direction = d; task_type = k })
        (record e { direction = d; kind = k })
retag m e d k r h t = record {
  meta_ok = record {
    addr_ok = r.meta_ok.addr_ok;
    id_ok = r.meta_ok.id_ok;
    type_ok = t;
    direction_ok = h;
  };
  from_cluster_read = r.from_cluster_read;
  from_read = r.from_read;
  to_cluster_read = r.to_cluster_read;
  to_read = r.to_read;
  task_eq = r.task_eq;
  kind_eq = refl;
  direction_eq = refl;
}

-- Setting the direction alone.
pub direct :
    (m : TaskMeta) (e : Envelope) (d : TaskDirection)
    → Represents m e
    → direction_code d < 2 ^ 32
    → Represents (record m { task_direction = d }) (record e { direction = d })
direct m e d r h =
    let tagged = retag m e d m.task_type r h r.meta_ok.type_ok in
    record {
      meta_ok = tagged.meta_ok;
      from_cluster_read = r.from_cluster_read;
      from_read = r.from_read;
      to_cluster_read = r.to_cluster_read;
      to_read = r.to_read;
      task_eq = r.task_eq;
      kind_eq = r.kind_eq;
      direction_eq = refl;
    }

-- A frame that encodes an envelope loads into a structure that represents it.
pub load_meta-Yields : (f : Bytes) (e : Envelope) → Encodes f e → Yields (load_meta f) e
load_meta-Yields f e (m, p, r) = (m, rw p (load_meta-encode_meta m r.meta_ok), r)

pub length-Encodes : (f : Bytes) (e : Envelope) → Encodes f e → length f ≡ 144
length-Encodes f e (m, p, r) = rw p (length-encode_meta m r.meta_ok)

-- Storing a structure over such a frame gives a frame that encodes what the structure represents.
pub store_meta-Encodes :
    (m : TaskMeta) (e e' : Envelope) (f : Bytes)
    → Represents m e
    → Encodes f e'
    → (g : Bytes) × (store_meta m f ≡ done g) × Encodes g e
store_meta-Encodes m e e' f r h =
    (encode_meta m, store_meta-done m f (length-Encodes f e' h), (m, refl, r))
