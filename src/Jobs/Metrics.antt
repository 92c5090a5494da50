-- ===== src/Jobs/Metrics.antt =====
-- src/jobhandler/WorkerMetricsCallback.hpp: the callbacks, as the events that they receive.
-- src/jobhandler/SimpleConsoleMetrics.hpp: the lines that it prints for them.
use cppapiframework.Common.{ℕ, ◌++◌, Bytes, text}
use cppapiframework.Common.Int.{ℤ}
use cppapiframework.Common.Decimal.{to_string, to_string_ℤ}
use cppapiframework.Jobs.Handler.{JobStatus, noerror, errorremove, errorretry, errexcept}

-- The queue, the class and the uuid of the job come first.
pub data Event : Type 0 where
  queued : Bytes → Bytes → Bytes → Event
  started : Bytes → Bytes → Bytes → ℕ → Event
  completed : Bytes → Bytes → Bytes → JobStatus → ℕ → Event
  retried : Bytes → Bytes → Bytes → ℕ → ℤ → Event
  removed : Bytes → Bytes → Bytes → JobStatus → ℕ → Event

pub status_str : JobStatus → Bytes
status_str noerror = text "SUCESSO"
status_str errorremove = text "ERRO_PERMANENTE"
status_str errorretry = text "ERRO_RETRY"
status_str errexcept = text "EXCEÇÃO"

heading : Bytes → Bytes → Bytes → Bytes → Bytes
heading what queue name uuid =
    text "[METRICS] Job "
    ++ (what
        ++ (text " - Queue: "
            ++ (queue ++ (text ", Job: " ++ (name ++ (text ", UUID: " ++ uuid))))))

-- The line for an event; `millis` is the duration that the call measured.
pub console_line : ℕ → Event → Bytes
unfolding heading status_str
console_line millis (queued q n u) = heading (text "enfileirado") q n u ++ text "\n"
console_line millis (started q n u tries) =
    heading (text "iniciado") q n u ++ (text ", Tentativa: " ++ (to_string tries ++ text "\n"))
console_line millis (completed q n u result tries) =
    heading (text "concluído") q n u
    ++ (text ", Status: "
        ++ (status_str result
            ++ (text ", Duração: "
                ++ (to_string millis
                    ++ (text "ms, Tentativas: " ++ (to_string tries ++ text "\n"))))))
console_line millis (retried q n u tries after) =
    heading (text "reagendado") q n u
    ++ (text ", Tentativas: "
        ++ (to_string tries ++ (text ", Retry em: " ++ (to_string_ℤ after ++ text "s\n"))))
console_line millis (removed q n u result tries) =
    heading (text "removido permanentemente") q n u
    ++ (text ", Status final: "
        ++ (status_str result
            ++ (text ", Total de tentativas: " ++ (to_string tries ++ text "\n"))))
