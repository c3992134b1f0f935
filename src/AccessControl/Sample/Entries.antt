-- ===== src/AccessControl/Sample/Entries.antt =====
-- A text form of access control entries for the tests. As JSON does, it leaves out functions.
use job_queue.Prelude.{
  String, ℕ, zero, suc, ◌≡◌, refl, Bool, Option, none, some, List, ◌∷◌, ◌++◌, length, take, Settled,
  returned, threw,
}
use job_queue.Redis.{Json}
use job_queue.AccessControl.{
  Text, drop, Permission, can_add_job, can_view_job, can_modify_job, can_delete_job,
  can_manage_queue, can_manage_workers, can_view_metrics, Conditions, AccessControlEntry,
}
use job_queue.AccessControl.Sample.{
  take_first, drop_first, of_option, to_option, of_bool, to_bool, option_back, bool_back,
}

abbrev range_text : Option (ℕ × ℕ) → Text → Text
range_text none rest = 0 ∷ 0 ∷ rest
range_text (some (start, end)) rest = suc start ∷ end ∷ rest

abbrev conditions_text : Option Conditions → Text → Text
conditions_text none rest = 0 ∷ 0 ∷ 0 ∷ rest
conditions_text (some c) rest = 1 ∷ range_text c.time_range rest

abbrev entry_text : AccessControlEntry → Text
entry_text e =
    length e.principal_id
    ∷ of_bool (e.permissions can_add_job)
    ∷ of_bool (e.permissions can_view_job)
    ∷ of_bool (e.permissions can_modify_job)
    ∷ of_bool (e.permissions can_delete_job)
    ∷ of_bool (e.permissions can_manage_queue)
    ∷ of_bool (e.permissions can_manage_workers)
    ∷ of_bool (e.permissions can_view_metrics)
    ∷ of_option e.expires_at
    ∷ conditions_text e.conditions (e.principal_id ++ e.queue_pattern)

abbrev table : (a v m d q w t : Bool) → Permission → Bool
table a v m d q w t can_add_job = a
table a v m d q w t can_view_job = v
table a v m d q w t can_modify_job = m
table a v m d q w t can_delete_job = d
table a v m d q w t can_manage_queue = q
table a v m d q w t can_manage_workers = w
table a v m d q w t can_view_metrics = t

abbrev to_range : ℕ → ℕ → Option (ℕ × ℕ)
to_range zero end = none
to_range (suc start) end = some (start, end)

abbrev to_conditions : ℕ → ℕ → ℕ → Option Conditions
to_conditions zero start end = none
to_conditions (suc n) start end =
    some (record { time_range = to_range start end; ip_whitelist = none; custom = none })

abbrev parse_entry : Text → Settled AccessControlEntry
parse_entry (n ∷ a ∷ v ∷ m ∷ d ∷ q ∷ w ∷ t ∷ expires ∷ flag ∷ start ∷ end ∷ texts) =
    returned record {
      principal_id = take n texts;
      queue_pattern = drop n texts;
      permissions =
          table (to_bool a) (to_bool v) (to_bool m) (to_bool d) (to_bool q) (to_bool w) (to_bool t);
      expires_at = to_option expires;
      conditions = to_conditions flag start end;
    }
parse_entry _ = threw "SyntaxError"

abbrev stored_conditions : Option Conditions → Option Conditions
stored_conditions none = none
stored_conditions (some c) =
    some (record { time_range = c.time_range; ip_whitelist = none; custom = none })

abbrev stored_entry : AccessControlEntry → AccessControlEntry
stored_entry e = record e {
  permissions =
      table (e.permissions can_add_job) (e.permissions can_view_job) (e.permissions can_modify_job)
        (e.permissions can_delete_job) (e.permissions can_manage_queue)
        (e.permissions can_manage_workers) (e.permissions can_view_metrics);
  conditions = stored_conditions e.conditions;
}

-- The texts, the bits and the expiry come back, whatever the conditions are written as.
pub back :
    (p q : Text) (f : Permission → Bool) (expires : Option ℕ) (flag start end : ℕ)
    → parse_entry (
        length p
        ∷ of_bool (f can_add_job)
        ∷ of_bool (f can_view_job)
        ∷ of_bool (f can_modify_job)
        ∷ of_bool (f can_delete_job)
        ∷ of_bool (f can_manage_queue)
        ∷ of_bool (f can_manage_workers)
        ∷ of_bool (f can_view_metrics)
        ∷ of_option expires
        ∷ flag
        ∷ start
        ∷ end
        ∷ (p ++ q))
      ≡ returned record {
        principal_id = p;
        queue_pattern = q;
        permissions =
            table
              (f can_add_job)
              (f can_view_job)
              (f can_modify_job)
              (f can_delete_job)
              (f can_manage_queue)
              (f can_manage_workers)
              (f can_view_metrics);
        expires_at = expires;
        conditions = to_conditions flag start end;
      }
back p q f expires flag start end =
    rw
      (
        take_first p q,
        drop_first p q,
        option_back expires,
        bool_back (f can_add_job),
        bool_back (f can_view_job),
        bool_back (f can_modify_job),
        bool_back (f can_delete_job),
        bool_back (f can_manage_queue),
        bool_back (f can_manage_workers),
        bool_back (f can_view_metrics),
      )
      refl

pub back_in :
    (p q : Text) (f : Permission → Bool) (expires : Option ℕ) (t : Option (ℕ × ℕ))
    (w : Option (List String)) (test : Option (ℕ → Bool))
    → let e : AccessControlEntry = record {
      principal_id = p;
      queue_pattern = q;
      permissions = f;
      expires_at = expires;
      conditions = some (record { time_range = t; ip_whitelist = w; custom = test });
    } in
      parse_entry (entry_text e) ≡ returned (stored_entry e)
back_in p q f expires none w test = back p q f expires 1 0 0
back_in p q f expires (some (start, end)) w test = back p q f expires 1 (suc start) end

pub parse-entry_text :
    (p q : Text) (f : Permission → Bool) (expires : Option ℕ) (c : Option Conditions)
    → let e : AccessControlEntry = record {
      principal_id = p;
      queue_pattern = q;
      permissions = f;
      expires_at = expires;
      conditions = c;
    } in
      parse_entry (entry_text e) ≡ returned (stored_entry e)
parse-entry_text p q f expires none = back p q f expires 0 0 0
parse-entry_text p q f expires (some c) = back_in p q f expires c.time_range c.ip_whitelist c.custom

abbrev pub entry_json : Json AccessControlEntry
entry_json = record {
  stringify = entry_text;
  parse = parse_entry;
  stored = stored_entry;
  present-stringify = λ e. refl;
  parse-stringify =
      λ e. parse-entry_text e.principal_id e.queue_pattern e.permissions e.expires_at e.conditions;
}
