-- ===== src/Jobs/Codec/JobRoundTrip.antt =====
-- What is read of a job that was written (services/api/job_queue.py).
use veri_doc.Prelude.{String, ◌≡◌, refl, Option, none, some}
use veri_doc.Py.Value.{Fields, str, dict, get, has}
use veri_doc.Py.Base64.{b64encode, b64decode}
use veri_doc.Jobs.Record.{JobRecord, JobStatus, queued, running, succeeded, failed, ok}
use veri_doc.Jobs.Codec.RoundTrip.{
  IsProper, IsProperFields, as_lists, fields_as_lists,
  decode_persisted_value-encode_persisted_value,
}
use veri_doc.Jobs.Codec.Job.{
  status_text, dict_or_none, text_or_none, to_dict, encode_job, optional_text, optional_dict,
  status_from, job_from, decode_job,
}

abbrev lists_in : Option Fields → Option Fields
lists_in none = none
lists_in (some fs) = some (fields_as_lists fs)

-- The job with a list for each tuple, as JSON gives it back.
abbrev pub reread : JobRecord → JobRecord
reread job = record job {
  source = lists_in job.source;
  template = lists_in job.template;
  request_parameters = lists_in job.request_parameters;
  result = lists_in job.result;
}

abbrev AllProperIn : Option Fields → Type 0
AllProperIn none = Unit
AllProperIn (some fs) = IsProperFields fs

-- A job of Python values: no dict names a key twice, and no value is a reference of the queue's own.
abbrev pub IsProperJob : JobRecord → Type 0
IsProperJob job =
    AllProperIn job.source
    × AllProperIn job.template
    × AllProperIn job.request_parameters
    × AllProperIn job.result

dict_or_none-IsProper : (o : Option Fields) → AllProperIn o → IsProper (dict_or_none o)
dict_or_none-IsProper none h = tt
dict_or_none-IsProper (some fs) h = h

text_or_none-IsProper : (o : Option String) → IsProper (text_or_none o)
text_or_none-IsProper none = tt
text_or_none-IsProper (some s) = tt

to_dict-IsProper : (job : JobRecord) → IsProperJob job → IsProper (dict (to_dict job))
unfolding to_dict has
to_dict-IsProper job (source, template, parameters, result) = (
  refl,
  tt,
  (
    refl,
    tt,
    (
      refl,
      tt,
      (
        refl,
        tt,
        (
          refl,
          tt,
          (
            refl,
            dict_or_none-IsProper job.source source,
            (
              refl,
              dict_or_none-IsProper job.template template,
              (
                refl,
                dict_or_none-IsProper job.request_parameters parameters,
                (
                  refl,
                  tt,
                  (
                    refl,
                    dict_or_none-IsProper job.result result,
                    (refl, text_or_none-IsProper job.error, (refl, tt, (refl, tt, (refl, tt, tt)))),
                  ),
                ),
              ),
            ),
          ),
        ),
      ),
    ),
  ),
)

optional_dict-lists :
    (o : Option Fields) → optional_dict (as_lists (dict_or_none o)) ≡ ok (lists_in o)
unfolding as_lists
optional_dict-lists none = refl
optional_dict-lists (some fs) = refl

optional_text-lists : (o : Option String) → optional_text (as_lists (text_or_none o)) ≡ ok o
unfolding as_lists
optional_text-lists none = refl
optional_text-lists (some s) = refl

status-text : (s : JobStatus) → status_from (str (status_text s)) ≡ ok s
status-text queued = refl
status-text running = refl
status-text succeeded = refl
status-text failed = refl

job_from-to_dict : (job : JobRecord) → job_from (as_lists (dict (to_dict job))) ≡ ok (reread job)
unfolding to_dict job_from as_lists get
job_from-to_dict job =
    rw
      (
        optional_dict-lists job.source,
        optional_dict-lists job.template,
        optional_dict-lists job.request_parameters,
        optional_dict-lists job.result,
        optional_text-lists job.error,
        status-text job.status,
      )
      refl

-- What is written of a job is read back, with a list for each tuple.
pub decode_job-encode_job :
    (job : JobRecord) → IsProperJob job → decode_job (encode_job job) ≡ ok (reread job)
unfolding decode_job encode_job
decode_job-encode_job job h =
    let (decodes, restores) =
      decode_persisted_value-encode_persisted_value b64encode b64decode (dict (to_dict job))
        (to_dict-IsProper job h) in
    rw (decodes, restores) (job_from-to_dict job)
