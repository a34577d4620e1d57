-- ===== src/Discordiador/State.antt =====
-- The data of the Discordiador, in Discordiador/headers/sabotaje.h: the tripulantes, the patotas,
-- the queues of the planner, the flags and the semaphores. A pointer to a tcb is the number of tcbs
-- made before it, which is also its `tid`; the blocks they point to are a function.
use tp_2021_so_fin.Base.{ℕ, Bool, false, List, [], Option, none, ◌==◌, if◌then◌else◌}
use tp_2021_so_fin.Base.Bytes.{Bytes}
use tp_2021_so_fin.Commons.{Commons}

-- the values of `status`: 'N', 'R', 'E', 'I', 'M' and 'X'
abbrev pub estado_new : ℕ
estado_new = b'N'

abbrev pub estado_ready : ℕ
estado_ready = b'R'

abbrev pub estado_exec : ℕ
estado_exec = b'E'

abbrev pub estado_bloq_io : ℕ
estado_bloq_io = b'I'

abbrev pub estado_bloq_emer : ℕ
estado_bloq_emer = b'M'

abbrev pub estado_exit : ℕ
estado_exit = b'X'

-- `tcb`; an `instruccion_actual` of NULL is `none`
pub record Tcb : Type 0 where
  pub tid : ℕ
  pub pid : ℕ
  pub status : ℕ
  pub posicion_x : ℕ
  pub posicion_y : ℕ
  pub instruccion_actual : Option (List ℕ)
  pub esta_vivo_el_hilo : ℕ
  pub tiempo_en_exec : ℕ
  pub tiempo_en_bloq_io : ℕ
  pub ciclos_cumplidos : ℕ
  pub mensaje_inicial_ims : ℕ
  pub ciclo_cpu_cumplido : ℕ

-- `pcb`, without `rutaTareas`, which is used only where the pcb is made
pub record Pcb : Type 0 where
  pub pid : ℕ
  pub todos_los_tcbs_terminaron : ℕ
  pub lista_tcb : List ℕ

-- an element of `buffersAEnviar`: the pid stands in `command`
pub record Buffer : Type 0 where
  pub command : ℕ
  pub payload : List ℕ

-- `enum comandos`
abbrev pub codigo_success : ℕ
codigo_success = 200

abbrev pub codigo_iniciar_patota : ℕ
codigo_iniciar_patota = 500

abbrev pub codigo_enviar_cambio_de_estado : ℕ
codigo_enviar_cambio_de_estado = 501

abbrev pub codigo_enviar_ubicacion_tripulante : ℕ
codigo_enviar_ubicacion_tripulante = 502

abbrev pub codigo_enviar_tarea : ℕ
codigo_enviar_tarea = 520

abbrev pub codigo_expulsar_tripulante : ℕ
codigo_expulsar_tripulante = 530

abbrev pub codigo_error_no_hay_tareas : ℕ
codigo_error_no_hay_tareas = 560

abbrev pub codigo_eliminar_patota : ℕ
codigo_eliminar_patota = 599

abbrev pub codigo_enviar_obtener_bitacora : ℕ
codigo_enviar_obtener_bitacora = 760

abbrev pub codigo_mover_tripulante : ℕ
codigo_mover_tripulante = 761

abbrev pub codigo_comenzar_ejecucion_tarea : ℕ
codigo_comenzar_ejecucion_tarea = 762

abbrev pub codigo_finalizar_ejecucion_tarea : ℕ
codigo_finalizar_ejecucion_tarea = 763

abbrev pub codigo_atiende_sabotaje : ℕ
codigo_atiende_sabotaje = 764

abbrev pub codigo_invocar_fsck : ℕ
codigo_invocar_fsck = 771

abbrev pub codigo_resolucion_sabotaje : ℕ
codigo_resolucion_sabotaje = 772

-- the two modules that messages go to: MiRAMHQ and IMongoStore
pub data Modulo : Type 0 where
  ram ims : Modulo

-- a message that was sent
pub record Enviado : Type 0 where
  pub destino : Modulo
  pub command : ℕ
  pub payload : List ℕ

pub record Respuesta : Type 0 where
  pub command : ℕ
  pub payload : Bytes

-- the queues that a tripulante moves through
pub record Colas : Type 0 where
  pub cola_new : List ℕ
  pub ready : List ℕ
  pub exec : List ℕ
  pub bloq_io : List ℕ
  pub bloq_emer : List ℕ
  pub cola_exit : List ℕ

-- The data that the threads share. `enviados` has the messages in the order in which they were
-- sent; `cantidad_tcb_totales` is the number of tcbs that were made.
pub record Nave : Type 0 where
  pub tcbs : ℕ → Tcb
  pub colas : Colas
  pub bloq_emer_sorted : List ℕ
  pub cola_cont_sab : List Tcb
  pub buffers_a_enviar : List Buffer
  pub lista_pcb : List Pcb
  pub contador_pcbs : ℕ
  pub cantidad_tcb_totales : ℕ
  pub cantidad_vieja : ℕ
  pub cantidad_actual : ℕ
  pub planificacion_viva : Bool
  pub sabotaje_activado : Bool
  pub sabotaje_terminado : Bool
  pub primer_ciclo_sabotaje : Bool
  pub ciclos_transcurridos_sabotaje : ℕ
  pub pos_sabotaje_x : ℕ
  pub pos_sabotaje_y : ℕ
  pub contador_ciclo_cpu : ℕ
  pub enviados : List Enviado

-- The semaphores and the two counters that go with them. `esperando` says that the thread of
-- NEW->READY has passed `pausar` and waits at `semNR`.
pub record Semaforos : Type 0 where
  pub pausar : ℕ
  pub esperando : Bool
  pub sem_nr : ℕ
  pub sem_ebio : ℕ
  pub sem_re : ℕ
  pub sem_er : ℕ
  pub sem_eax : ℕ
  pub sem_blockio : ℕ
  pub sem_erm : ℕ
  pub sem_mr : ℕ
  pub sem_exit : ℕ
  pub lista_semaforos : List ℕ
  pub contador_sem_global : ℕ
  pub cantidad_tcb_en_exec : ℕ

-- What the Discordiador is given: the configuration, the libraries, and MiRAMHQ, whose answer to
-- the last of the messages depends on all that were sent. `atoi` is read where it is not negative.
pub record Entorno : Type 1 where
  pub commons : Commons
  pub string_split : List ℕ → List ℕ → List (List ℕ)
  pub atoi : List ℕ → ℕ
  pub ram : List Enviado → Respuesta
  -- the lines of a file, as `getline` reads them, or the NULL of `fopen`
  pub getline : List ℕ → Option (List (List ℕ))
  pub grado_multitarea : ℕ
  -- whether `algoritmo` is "RR"
  pub es_rr : Bool
  pub quantum_rr : ℕ
  pub duracion_sabotaje : ℕ

-- A write through a pointer.
abbrev pub con_tcb : Nave → ℕ → Tcb → Nave
con_tcb n p t = record n { tcbs = λ q. if q == p then t else n.tcbs q }

abbrev pub con_colas : Nave → Colas → Nave
con_colas n c = record n { colas = c }

-- The globals as main.c sets them; what it does not set holds zeros, and the queues are not there
-- yet.
unfoldable pub globales : Nave
globales = record {
  tcbs = λ p. record {
    tid = 0;
    pid = 0;
    status = 0;
    posicion_x = 0;
    posicion_y = 0;
    instruccion_actual = none;
    esta_vivo_el_hilo = 0;
    tiempo_en_exec = 0;
    tiempo_en_bloq_io = 0;
    ciclos_cumplidos = 0;
    mensaje_inicial_ims = 0;
    ciclo_cpu_cumplido = 0;
  };
  colas = record {
    cola_new = [];
    ready = [];
    exec = [];
    bloq_io = [];
    bloq_emer = [];
    cola_exit = [];
  };
  bloq_emer_sorted = [];
  cola_cont_sab = [];
  buffers_a_enviar = [];
  lista_pcb = [];
  contador_pcbs = 0;
  cantidad_tcb_totales = 0;
  cantidad_vieja = 0;
  cantidad_actual = 0;
  planificacion_viva = false;
  sabotaje_activado = false;
  sabotaje_terminado = false;
  primer_ciclo_sabotaje = false;
  ciclos_transcurridos_sabotaje = 0;
  pos_sabotaje_x = 0;
  pos_sabotaje_y = 0;
  contador_ciclo_cpu = 1;
  enviados = [];
}

-- The queues and lists are made empty.
unfoldable pub funcion_planificador : Nave → Nave
funcion_planificador n = record n {
  colas = record {
    cola_new = [];
    ready = [];
    exec = [];
    bloq_io = [];
    bloq_emer = [];
    cola_exit = [];
  };
  bloq_emer_sorted = [];
  cola_cont_sab = [];
  buffers_a_enviar = [];
  lista_pcb = [];
}

-- the `sem_init` calls of main.c
unfoldable pub sem_init : Semaforos
sem_init = record {
  pausar = 0;
  esperando = false;
  sem_nr = 0;
  sem_ebio = 0;
  sem_re = 0;
  sem_er = 0;
  sem_eax = 0;
  sem_blockio = 0;
  sem_erm = 0;
  sem_mr = 0;
  sem_exit = 0;
  lista_semaforos = [];
  contador_sem_global = 0;
  cantidad_tcb_en_exec = 0;
}
